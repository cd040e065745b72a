-- ===== src/Center/RemoteProxy/Routes.antt =====
-- What the messages of a remote proxy server do to the routes.
use lemon_server.Common.{ℕ, [], ◌∷◌, ◌≡◌, refl, true, not, ◌&&◌, ◌==◌, Option, some, if◌then◌else◌}
use lemon_server.Common.Bytes.{Bytes, is_empty}
use lemon_server.Center.Monad.{M, raise, set_request, try_both, ◌>>=◌, skip}
use lemon_server.Center.RemoteProxy.{
  set_local_id, query_local_id, find_local_id, accepted, handle_auth_response,
  handle_forward_response, handle_onoff_line, forwarded, handle_terminal_message, by_id, handle,
  change,
}
use lemon_server.Center.Routing.{Session, Route, core_of, route}
use lemon_server.Center.Routing.Keeps.{call-Fixed, set_client-route}
use lemon_server.Center.Terminal
use lemon_server.Center.Terminal.Auth.Routes.{RefusesEmpty}
use lemon_server.Center.Terminal.Routes
use lemon_server.Center.World.{Env, Client, Role, set_client, insert}
use lemon_server.Handler.Fixed.{Fixed, fixed, Fixed-modify, Fixed-skip, Fixed-raise}
use lemon_server.Handler.Leads.{
  Leads, Leads-Fixed, Leads-bind, Leads-after, Leads-if, Leads-try_both,
}
use lemon_server.Protocol.Errors.{must_authrize}
use lemon_server.Protocol.MessageId.{
  MessageId, code, of_code, c2c_auth_response_0x4002, c2c_forward_response_0x4005,
  c2c_terminal_onoff_line_0x4006, c2c_forward_to_ics_0x4007,
}
use lemon_server.Protocol.Stream.{Reader}

module _ (env : Env) (self : ℕ) where
  -- A change of the object's own members, of which none is a core's.
  change-Fixed :
      (f : Client → Client)
      → ((c : Client) → core_of (f c) ≡ core_of c)
      → Fixed route (change env self f)
  change-Fixed f h =
      Fixed-modify route (λ w. set_client self (f (w.clients self)) w)
        (λ w. set_client-route self (f (w.clients self)) w (h (w.clients self)))

  set_local_id-Fixed : (id l : Bytes) → Fixed route (set_local_id env self id l)
  unfolding set_local_id
  set_local_id-Fixed id l =
      change-Fixed (λ c. record c { remote_ids = insert id l c.remote_ids }) (λ c. refl)

  query_local_id-Fixed : (id : Bytes) → Fixed route (query_local_id env self id)
  unfolding query_local_id
  query_local_id-Fixed id = search (fixed, call-Fixed, set_local_id-Fixed) depth 20

  find_local_id-Fixed : (id : Bytes) → Fixed route (find_local_id env self id)
  unfolding find_local_id
  find_local_id-Fixed id = search (fixed, set_local_id-Fixed, query_local_id-Fixed) depth 20

  legal-Fixed : Fixed route (change env self λ c. record c { is_legal = true })
  legal-Fixed = change-Fixed (λ c. record c { is_legal = true }) (λ c. refl)

  accepted-Fixed : (t2 : ℕ) → Fixed route (accepted env self t2)
  unfolding accepted
  accepted-Fixed t2 = search (fixed, call-Fixed, legal-Fixed) depth 20

  handle_auth_response-Fixed : Fixed route (handle_auth_response env self)
  unfolding handle_auth_response
  handle_auth_response-Fixed = search (fixed, accepted-Fixed) depth 20

  handle_forward_response-Fixed : Fixed route (handle_forward_response env self)
  unfolding handle_forward_response
  handle_forward_response-Fixed = search (fixed, call-Fixed) depth 20

  handle_onoff_line-Fixed : Fixed route (handle_onoff_line env self)
  unfolding handle_onoff_line
  handle_onoff_line-Fixed = search (fixed, call-Fixed) depth 20

module _ (env : Env) (role : Role) (self : ℕ) where
  abbrev Kept : M (Unit {0}) → Type 0
  Kept m = Leads route (Session role self) (Session role self) m

  monitored-Fixed : (m : Bytes) → Fixed route (change env self λ c. record c { monitor_id = m })
  monitored-Fixed m = change-Fixed env self (λ c. record c { monitor_id = m }) (λ c. refl)

  set_request-Fixed : (g : Reader → Reader) → Fixed route (set_request g)
  set_request-Fixed g s = refl

  unchanged : (r : Route) → Session role self r → Session role self r
  unchanged r h = h

  -- The terminal's handler, on this connection.
  tried_lem :
      RefusesEmpty env
      → Leads route (Session role self) (Session role self) (try_both (Terminal.handle env self))
  tried_lem refuses =
      Leads-try_both route (Session role self) (Session role self) (Terminal.handle env self)
        (Terminal.Routes.handle_lem env role self refuses)

  ended_lem : RefusesEmpty env → Kept (do caught ← try_both (Terminal.handle env self); skip)
  ended_lem refuses =
      Leads-bind route (Session role self) (Session role self) (try_both (Terminal.handle env self))
        (λ caught. skip) unchanged (tried_lem refuses)
        (λ caught. Leads-Fixed route (Session role self) skip (Fixed-skip route))

  forwarded_lem : RefusesEmpty env → (id : ℕ) (m : Bytes) → Kept (forwarded env self id m)
  unfolding forwarded
  forwarded_lem refuses id m =
      search
        (
          Leads-after route (Session role self) (Session role self),
          unchanged,
          set_request-Fixed,
          monitored-Fixed,
          ended_lem refuses,
        )
        depth 20

  message_lem :
      RefusesEmpty env
      → (id : ℕ) (m : Bytes) → Kept (if is_empty m then skip else forwarded env self id m)
  message_lem refuses id [] = Leads-Fixed route (Session role self) skip (Fixed-skip route)
  message_lem refuses id (b ∷ bs) = forwarded_lem refuses id (b ∷ bs)

  handle_terminal_message_lem : RefusesEmpty env → Kept (handle_terminal_message env self)
  unfolding handle_terminal_message
  handle_terminal_message_lem refuses =
      search
        (
          Leads-after route (Session role self) (Session role self),
          unchanged,
          fixed,
          find_local_id-Fixed,
          message_lem refuses,
        )
        depth 20

  quiet_lem : (m : M (Unit {0})) → Fixed route m → Kept m
  quiet_lem m h = Leads-Fixed route (Session role self) m h

  by_id_lem : RefusesEmpty env → (m : Option MessageId) → Kept (by_id env self m)
  unfolding by_id
  by_id_lem refuses (some c2c_auth_response_0x4002) =
      quiet_lem (handle_auth_response env self) (handle_auth_response-Fixed env self)
  by_id_lem refuses (some c2c_forward_response_0x4005) =
      quiet_lem (handle_forward_response env self) (handle_forward_response-Fixed env self)
  by_id_lem refuses (some c2c_terminal_onoff_line_0x4006) =
      quiet_lem (handle_onoff_line env self) (handle_onoff_line-Fixed env self)
  by_id_lem refuses (some c2c_forward_to_ics_0x4007) = handle_terminal_message_lem refuses
  by_id_lem refuses _ = quiet_lem skip (Fixed-skip route)

  pub handle_lem : RefusesEmpty env → Kept (handle env self)
  unfolding handle
  handle_lem refuses s h =
      Leads-if route (Session role self) (Session role self)
        (not (s.request.head.id == code c2c_auth_response_0x4002)
          && not (s.world.clients self).is_legal)
        (raise must_authrize) (by_id env self (of_code s.request.head.id))
        (λ e. quiet_lem (raise must_authrize) (Fixed-raise route (Unit {0}) must_authrize))
        (λ e. by_id_lem refuses (of_code s.request.head.id)) s h
