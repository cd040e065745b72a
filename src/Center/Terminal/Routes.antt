-- ===== src/Center/Terminal/Routes.antt =====
-- What a message to the handler of a terminal's connection does to the routes. The handler also runs
-- on the connection of a remote proxy server.
use lemon_server.Common.{ℕ, inl, inr, sym, ◌≢◌, not, ◌&&◌, ◌==◌, Option, some}
use mathlib.Core.Path.{subst}
use lemon_server.Common.Bytes.{is_empty}
use lemon_server.Center.Monad.{M, raise}
use lemon_server.Center.Routing.{Session, route}
use lemon_server.Center.Routing.Keeps.{Keeps-Fixed, new_stream-Fixed, build-Fixed, send_on-Fixed}
use lemon_server.Center.Terminal.{handle, by_id, dispatch}
use lemon_server.Center.Terminal.Auth.Routes.{RefusesEmpty, handle_auth_request_lem}
use lemon_server.Center.Terminal.Business.{handle_business_report}
use lemon_server.Center.Terminal.Business.Routes.{handle_business_report-Fixed}
use lemon_server.Center.Terminal.Kept.{by_id-Keeps}
use lemon_server.Center.World.{Env, Role}
use lemon_server.Center.Monad.{only_specified}
use lemon_server.Center.Monad.Declared.{Fixed-only_specified}
use lemon_server.Center.Terminal.Reports.{reported, handle_events_report}
use lemon_server.Center.Terminal.Reports.Kept.{reported-Keeps}
use lemon_server.Common.{refl}
use lemon_server.Handler.Fixed.{Fixed, fixed, Fixed-raise}
use lemon_server.Handler.Leads.{Leads, Leads-Fixed, Leads-if}
use lemon_server.Protocol.Errors.{must_authrize}
use lemon_server.Protocol.MessageId.{
  MessageId, code, of_code, same_message, t2c_auth_request_0x0101, t2c_bus_report_0x0901,
  t2c_event_report_0x0501,
}

module _ (env : Env) (role : Role) (self : ℕ) where
  abbrev Kept : M (Unit {0}) → Type 0
  Kept m = Leads route (Session role self) (Session role self) m

  other_lem :
      (id : ℕ) (m : Option MessageId)
      → m ≢ some t2c_auth_request_0x0101
      → m ≢ some t2c_bus_report_0x0901
      → m ≢ some t2c_event_report_0x0501
      → Kept (by_id env self id m)
  other_lem id m a b c =
      Leads-Fixed route (Session role self) (by_id env self id m)
        (Keeps-Fixed (by_id env self id m) (by_id-Keeps env self id m a b c))

  events_lem : Kept (handle_events_report env self)
  unfolding handle_events_report
  events_lem = Leads-Fixed route (Session role self) (only_specified (reported env self)) (
      Fixed-only_specified route (λ w. refl) (reported env self)
        (Keeps-Fixed (reported env self) (reported-Keeps env self)))

  by_id_lem : RefusesEmpty env → (id : ℕ) (m : Option MessageId) → Kept (by_id env self id m)
  by_id_lem refuses id m = elim (same_message m t2c_auth_request_0x0101) [
    | inl auth ↦
        subst (λ (o : Option MessageId). Kept (by_id env self id o)) (sym auth)
          (unfold by_id in handle_auth_request_lem env role self refuses)
    | inr other ↦ elim (same_message m t2c_bus_report_0x0901) [
      | inl business ↦
          subst (λ (o : Option MessageId). Kept (by_id env self id o)) (sym business)
            (unfold by_id in
              Leads-Fixed route (Session role self) (handle_business_report env self)
                (handle_business_report-Fixed env self))
      | inr rest ↦ elim (same_message m t2c_event_report_0x0501) [
        | inl event ↦
            subst (λ (o : Option MessageId). Kept (by_id env self id o)) (sym event)
              (unfold by_id in events_lem)
        | inr last ↦ other_lem id m other rest last
      ]
    ]
  ]

  pub handle_lem : RefusesEmpty env → Kept (handle env self)
  unfolding handle
  handle_lem refuses s h =
      Leads-if route (Session role self) (Session role self)
        (not (s.request.head.id == code t2c_auth_request_0x0101)
          && is_empty (s.world.clients self).gwid)
        (raise must_authrize) (by_id env self s.request.head.id (of_code s.request.head.id))
        (λ e.
          Leads-Fixed route {A = Unit {0}} (Session role self) (raise must_authrize)
            (Fixed-raise route (Unit {0}) must_authrize))
        (λ e. by_id_lem refuses s.request.head.id (of_code s.request.head.id)) s h

pub dispatch-Fixed : (env : Env) (i : ℕ) → Fixed route (dispatch env i)
unfolding dispatch
dispatch-Fixed env i = search (fixed, new_stream-Fixed, build-Fixed, send_on-Fixed) depth 20
