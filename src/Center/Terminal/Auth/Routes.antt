-- ===== src/Center/Terminal/Auth/Routes.antt =====
-- The authentication of a terminal, and the route that it enters.
use lemon_server.Common.{
  ℕ, ◌≡◌, ◌≢◌, refl, sym, true, Bool-cases, inl, inr, List, [], ◌∷◌, ◌==◌, ==_iff, arith,
}
use mathlib.Core.Path.{subst}
use lemon_server.Common.Bytes.{Bytes, is_empty}
use lemon_server.Center.Monad.{
  M, Scene, Out, done, raised, ◌>>=◌, ◌>>◌, read_string, write, write_string, get_world, modify,
  call,
}
use lemon_server.Center.Registry.{add_terminal_client}
use lemon_server.Center.Registry.Routes.{add_terminal_client-route}
use lemon_server.Center.Routing.{Route, Session, Claim, Unlisted, route}
use lemon_server.Center.Routing.Changes.{
  Route-ext, named, named-Claim, unnamed-Unlisted, entered-Session,
}
use lemon_server.Center.Routing.Keeps.{call-Fixed, set_client-route}
use lemon_server.Center.Terminal.Auth.{
  repeat_auth, auth_result, after_gwid, first_auth, handle_auth_request, set_gwid, set_monitor_id,
  set_device_kind, ok_text, failed_text,
}
use lemon_server.Center.World.{World, Client, Role, Env}
use lemon_server.Database.{Call, sp_online, text, int}
use lemon_server.Handler.Fixed.{
  Fixed, fixed, end_of, Fixed-modify, Fixed-write_string, Fixed-read_string,
}
use lemon_server.Handler.Leads.{Leads, Leads-Fixed, Leads-after, Leads-get_world, Leads-if}

-- The database refuses the empty id.
abbrev pub RefusesEmpty : Env → Type 0
RefusesEmpty env = (calls : List Call) (pwd : Bytes) → (env.authroize calls [] pwd).0 ≢ 0

module _ (env : Env) (role : Role) (self : ℕ) where
  repeat_auth-Fixed : Fixed route (repeat_auth env self)
  unfolding repeat_auth
  repeat_auth-Fixed = search fixed depth 20

  set_monitor_id-Fixed : (m : Bytes) → Fixed route (modify (set_monitor_id self m))
  set_monitor_id-Fixed m =
      Fixed-modify route (set_monitor_id self m) (λ w. set_client-route self _ w refl)

  set_device_kind-Fixed : (k : ℕ) → Fixed route (modify (set_device_kind self k))
  set_device_kind-Fixed k =
      Fixed-modify route (set_device_kind self k) (λ w. set_client-route self _ w refl)

  set_gwid-route : (g : Bytes) (w : World) → route (set_gwid self g w) ≡ named g self (route w)
  set_gwid-route g w = Route-ext (λ j. ground (arith, ==_iff self j)) refl refl

  claimed : (g : Bytes) (r : Route) → Claim g role self r → Session role self r
  claimed g r h = h.session

  abbrev Entering : Bytes → {A : Type 0} → M A → Type 0
  Entering g m = Leads route (Claim g role self) (Session role self) m

  enter_lem : (g : Bytes) → g ≢ [] → Entering g (modify (add_terminal_client env g self))
  enter_lem g known s h =
      subst (Session role self) (sym (add_terminal_client-route env g self s.world))
        (entered-Session g role self (route s.world) h known)

  refused_lem : (g : Bytes) → Entering g (do modify (set_gwid self []); write_string failed_text)
  refused_lem g s h =
      let s' : Scene = record s { world = set_gwid self [] s.world } in
      Leads-Fixed route (Session role self) (write_string failed_text)
        (Fixed-write_string route failed_text) s'
        (subst (Session role self) (sym (set_gwid-route [] s.world))
          (named-Claim [] role self (route s.world) h.session h.free).session)

  -- What follows an accepted authentication, with the members of the object then read.
  abbrev online : Client → World → M (Unit {0})
  online c w = do
    call env sp_online (
        text c.gwid
        ∷ text c.monitor_id
        ∷ int c.device_kind
        ∷ text w.online_ip
        ∷ int w.online_port
        ∷ [])
    write_string ok_text
    write 2 w.heartbeat_time
    modify (add_terminal_client env c.gwid self)

  answered_lem :
      (g : Bytes) (c : Client) (w : World) → g ≢ [] → c.gwid ≡ g → Entering g (online c w)
  answered_lem g c w known e =
      search
        (
          Leads-after route (Claim g role self) (Session role self),
          claimed,
          fixed,
          call-Fixed,
          enter_known,
        )
        depth 20
    where
      enter_known : Entering g (modify (add_terminal_client env c.gwid self))
      enter_known =
          subst (λ (k : Bytes). Entering g (modify (add_terminal_client env k self))) (sym e)
            (enter_lem g known)

  auth_result_lem :
      (g : Bytes) (ret : ℕ) (monitor_id : Bytes)
      → (g ≡ [] → ret ≢ 0)
      → Entering g (auth_result env self ret monitor_id)
  unfolding auth_result
  auth_result_lem g ret monitor_id refuses =
      Leads-if route (Claim g role self) (Session role self) (ret == 0) _ _
        (λ accepted.
          Leads-after route (Claim g role self) (Session role self)
            (modify (set_monitor_id self monitor_id))
            (λ u. get_world >>= λ w. online (w.clients self) w) (claimed g)
            (set_monitor_id-Fixed monitor_id)
            λ u.
              Leads-get_world route (Claim g role self) (Session role self)
                (λ w. online (w.clients self) w)
                λ w h.
                  answered_lem g (w.clients self) w
                    (λ none_known. refuses none_known ((==_iff ret 0).0 accepted)) h.mine)
        (λ refused. refused_lem g)

  result_lem :
      (g pwd : Bytes) (w : World)
      → RefusesEmpty env
      → Entering g (auth_result env self (env.authroize w.db g pwd).0 (env.authroize w.db g pwd).1)
  result_lem g pwd w refuses =
      auth_result_lem g (env.authroize w.db g pwd).0 (env.authroize w.db g pwd).1 λ none_known.
        subst (λ (k : Bytes). (env.authroize w.db k pwd).0 ≢ 0) (sym none_known) (refuses w.db pwd)

  after_gwid_lem : (g : Bytes) → RefusesEmpty env → Entering g (after_gwid env self g)
  unfolding after_gwid
  after_gwid_lem g refuses =
      search
        (
          Leads-after route (Claim g role self) (Session role self),
          claimed,
          fixed,
          call-Fixed,
          set_device_kind-Fixed,
          result_lem,
          refuses,
        )
        depth 20

  first_auth_lem :
      RefusesEmpty env
      → (s : Scene) → Session role self (route s.world)
      → is_empty (s.world.clients self).gwid ≡ true
      → Session role self (route (end_of (first_auth env self s)))
  unfolding first_auth
  first_auth_lem refuses s h none_known = first_from (read_string s) (Fixed-read_string route s)
    where
      first_from :
          (o : Out Bytes)
          → route (end_of o) ≡ route s.world
          → Session role self (
              route (
                end_of (elim o as (λ _. Out (Unit {0})) [
                  | done g s' ↦ (do modify (set_gwid self g); after_gwid env self g) s'
                  | raised e s' ↦ raised e s'
                ])))
      first_from (done g s') e =
          after_gwid_lem g refuses (record s' { world = set_gwid self g s'.world })
            (subst (Claim g role self) (sym (set_gwid-route g s'.world)) (
              named-Claim g role self (route s'.world) (subst (Session role self) (sym e) h) (
                subst (Unlisted self) (sym e)
                  (unnamed-Unlisted self (route s.world) h.routed none_known))))
      first_from (raised x s') e = subst (Session role self) (sym e) h

  pub handle_auth_request_lem :
      RefusesEmpty env
      → Leads route (Session role self) (Session role self) (handle_auth_request env self)
  unfolding handle_auth_request
  handle_auth_request_lem refuses s h = elim (Bool-cases (is_empty (s.world.clients self).gwid)) [
    | inl new ↦ rw new (first_auth_lem refuses s h new)
    | inr known ↦
        rw known
          (Leads-Fixed route (Session role self) (repeat_auth env self) repeat_auth-Fixed s h)
  ]
