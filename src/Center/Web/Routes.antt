-- ===== src/Center/Web/Routes.antt =====
-- What the messages of the web server do to the routes.
use lemon_server.Common.{
  ℕ, [], ◌∷◌, ◌%◌, ◌^◌, ◌≡◌, ◌≢◌, refl, sym, false, not, ◌||◌, ◌==◌, ==_iff, Option, none, some,
  arith, if◌then◌else◌,
}
use mathlib.Core.Path.{subst}
use lemon_server.Common.Bytes.{Bytes, is_empty}
use lemon_server.Center.Monad.{M, raise, modify, ◌>>◌, skip}
use lemon_server.Center.Monad.Declared.{Leads-only_specified}
use lemon_server.Center.Registry.Routes.{do_error-Session}
use lemon_server.Center.RemoteProxy.Outgoing
use lemon_server.Center.RemoteProxy.Outgoing.Routes
use lemon_server.Center.RemoteProxy.Outgoing.{request_authrize}
use lemon_server.Center.Routing.{Session, Route, added, core_of, route}
use lemon_server.Center.Routing.Changes.{Route-ext, added-Session}
use lemon_server.Center.Routing.Keeps.{call-Fixed}
use lemon_server.Center.Terminal.Routes as TerminalRoutes
use lemon_server.Center.Web.{
  dispatch_by, dispatch_to, forward_to, ics_forward, handle_ics_forward, connect_by,
  connect_address, connect_row, connect_new, connect_remote, connect_request, handle_connect_remote,
  disconnect, handle_disconnect_remote, remote_forward, handle_remote_forward, by_id, handle,
}
use lemon_server.Center.World.{
  World, Client, Role, terminal_client, web_client, remote_proxy_client, Env, Connecting,
  bad_address, refused, connected, new_client, add_client,
}
use lemon_server.Handler.Fixed.{Fixed, fixed, Fixed-raise, Fixed-skip, Fixed-pure}
use lemon_server.Handler.Leads.{
  Leads, Leads-Fixed, Leads-bind, Leads-after, Leads-if, Fixed-try_ics,
}
use lemon_server.Protocol.Errors.{never_dispatched, unknown_message, std_exception}
use lemon_server.Protocol.MessageId.{
  MessageId, of_code, w2c_send_to_ics_terminal_0x2001, w2c_connect_remote_request_0x2002,
  w2c_disconnect_remote_0x2003, w2c_send_to_remote_terminal_0x2004,
}

module _ (env : Env) where
  dispatch_by-Fixed : (role : Role) (i : ℕ) → Fixed route (dispatch_by env role i)
  unfolding dispatch_by
  dispatch_by-Fixed terminal_client i = TerminalRoutes.dispatch-Fixed env i
  dispatch_by-Fixed remote_proxy_client i = Outgoing.Routes.dispatch-Fixed env i
  dispatch_by-Fixed web_client i = Fixed-raise route (Unit {0}) never_dispatched

  dispatch_to-Fixed : (i : ℕ) → Fixed route (dispatch_to env i)
  unfolding dispatch_to
  dispatch_to-Fixed i = search (fixed, dispatch_by-Fixed) depth 20

  forward_to-Fixed : (o : Option ℕ) → Fixed route (forward_to env o)
  unfolding forward_to
  forward_to-Fixed none = Fixed-pure route false
  forward_to-Fixed (some i) = Fixed-try_ics route (dispatch_to env i) (dispatch_to-Fixed i)

  ics_forward-Fixed : (g : Bytes) (mid rid : ℕ) → Fixed route (ics_forward env g mid rid)
  unfolding ics_forward
  ics_forward-Fixed g mid rid = search (fixed, forward_to-Fixed, call-Fixed) depth 20

  handle_ics_forward-Fixed : Fixed route (handle_ics_forward env)
  unfolding handle_ics_forward
  handle_ics_forward-Fixed = search (fixed, ics_forward-Fixed) depth 20

  remote_forward-Fixed : (o : Option ℕ) (mid rid : ℕ) → Fixed route (remote_forward env o mid rid)
  unfolding remote_forward
  remote_forward-Fixed none mid rid = search (fixed, call-Fixed) depth 20
  remote_forward-Fixed (some i) mid rid = search (fixed, Fixed-try_ics, dispatch_to-Fixed) depth 20

  handle_remote_forward-Fixed : Fixed route (handle_remote_forward env)
  unfolding handle_remote_forward
  handle_remote_forward-Fixed = search (fixed, remote_forward-Fixed) depth 20

-- The object that the message came in on is no terminal's.
module _ (env : Env) (role : Role) (self : ℕ) (other : role ≢ terminal_client) where
  abbrev Kept : M (Unit {0}) → Type 0
  Kept m = Leads route (Session role self) (Session role self) m

  unchanged : (r : Route) → Session role self r → Session role self r
  unchanged r h = h

  quiet_lem : (m : M (Unit {0})) → Fixed route m → Kept m
  quiet_lem m h = Leads-Fixed route (Session role self) m h

  add_client-route : (c : Client) (w : World) → route (add_client c w) ≡ added (core_of c) (route w)
  add_client-route c w = Route-ext (λ j. ground (arith, ==_iff w.client_count j)) refl refl

  added_lem :
      (id : Bytes)
      → Kept (modify (add_client (record (new_client remote_proxy_client) { enterprise_id = id })))
  added_lem id s h =
      let c : Client = record (new_client remote_proxy_client) { enterprise_id = id } in
      subst (Session role self) (sym (add_client-route c s.world))
        (added-Session (core_of c) role self (route s.world) h refl)

  asked_lem : (i : ℕ) → Kept (request_authrize env i)
  asked_lem i = quiet_lem (request_authrize env i) (Outgoing.Routes.request_authrize-Fixed env i)

  new_lem :
      (id : Bytes) (w : World)
      → Kept (do
        modify (add_client (record (new_client remote_proxy_client) { enterprise_id = id }))
        request_authrize env w.client_count)
  new_lem id w =
      Leads-bind route (Session role self) (Session role self)
        (modify (add_client (record (new_client remote_proxy_client) { enterprise_id = id })))
        (λ u. request_authrize env w.client_count) unchanged (added_lem id)
        (λ u. asked_lem w.client_count)

  connect_by_lem : (id : Bytes) (c : Connecting) → Kept (connect_by env id c)
  unfolding connect_by
  connect_by_lem id bad_address =
      quiet_lem (raise std_exception) (Fixed-raise route (Unit {0}) std_exception)
  connect_by_lem id refused = quiet_lem skip (Fixed-skip route)
  connect_by_lem id connected = λ s h. new_lem id s.world s h

  connect_address_lem : (id ip : Bytes) (port : ℕ) → Kept (connect_address env id ip port)
  unfolding connect_address
  connect_address_lem id ip port =
      Leads-if route (Session role self) (Session role self) (not (is_empty ip) || not (port == 0))
        (connect_by env id (env.connecting ip (port % 2 ^ 16))) skip
        (λ e. connect_by_lem id (env.connecting ip (port % 2 ^ 16)))
        (λ e. quiet_lem skip (Fixed-skip route))

  connect_row_lem : (id : Bytes) (o : Option (Bytes × ℕ)) → Kept (connect_row env id o)
  unfolding connect_row
  connect_row_lem id none = connect_address_lem id [] env.stale_port
  connect_row_lem id (some (ip, port)) = connect_address_lem id ip port

  connect_remote_lem : (id : Bytes) (o : Option ℕ) → Kept (connect_remote env id o)
  unfolding connect_remote connect_new
  connect_remote_lem id (some conn) = quiet_lem skip (Fixed-skip route)
  connect_remote_lem id none =
      search
        (
          Leads-after route (Session role self) (Session role self),
          unchanged,
          fixed,
          call-Fixed,
          connect_row_lem,
        )
        depth 20

  wanted_lem :
      (id : Bytes) (o : Option ℕ) → Kept (if is_empty id then skip else connect_remote env id o)
  wanted_lem [] o = quiet_lem skip (Fixed-skip route)
  wanted_lem (b ∷ bs) o = connect_remote_lem (b ∷ bs) o

  connect_request_lem : Kept (connect_request env)
  unfolding connect_request
  connect_request_lem =
      search
        (Leads-after route (Session role self) (Session role self), unchanged, fixed, wanted_lem)
        depth 20

  handle_connect_remote_lem : Kept (handle_connect_remote env)
  unfolding handle_connect_remote
  handle_connect_remote_lem =
      Leads-only_specified route (λ w. refl) (Session role self) (Session role self)
        (connect_request env) connect_request_lem

  disconnect_lem : (o : Option ℕ) → Kept (disconnect env o)
  unfolding disconnect
  disconnect_lem none = quiet_lem skip (Fixed-skip route)
  disconnect_lem (some i) = λ s h. do_error-Session env i role self s.world other h

  handle_disconnect_remote_lem : Kept (handle_disconnect_remote env)
  unfolding handle_disconnect_remote
  handle_disconnect_remote_lem =
      search
        (
          Leads-after route (Session role self) (Session role self),
          unchanged,
          fixed,
          disconnect_lem,
        )
        depth 20

  by_id_lem : (id : ℕ) (m : Option MessageId) → Kept (by_id env id m)
  unfolding by_id
  by_id_lem id (some w2c_send_to_ics_terminal_0x2001) =
      quiet_lem (handle_ics_forward env) (handle_ics_forward-Fixed env)
  by_id_lem id (some w2c_connect_remote_request_0x2002) = handle_connect_remote_lem
  by_id_lem id (some w2c_disconnect_remote_0x2003) = handle_disconnect_remote_lem
  by_id_lem id (some w2c_send_to_remote_terminal_0x2004) =
      quiet_lem (handle_remote_forward env) (handle_remote_forward-Fixed env)
  by_id_lem id _ =
      quiet_lem (raise (unknown_message id)) (Fixed-raise route (Unit {0}) (unknown_message id))

  pub handle_lem : Kept (handle env)
  unfolding handle
  handle_lem = λ s h. by_id_lem s.request.head.id (of_code s.request.head.id) s h
