-- ===== src/Center/Terminal/Kept.antt =====
-- What the messages of an authenticated terminal leave as it is.
use lemon_server.Common.{ℕ, ◌≢◌, refl, Bool, true, false, Option, some, if◌then◌else◌}
use lemon_server.Center.Frame.{Keeps, keeps, Same, world_of, Same-refl, Keeps-raise, Keeps-skip}
use lemon_server.Center.Monad.{Scene, Out, raise, only_specified}
use lemon_server.Center.Terminal.{handle, by_id}
use lemon_server.Center.Terminal.Auth.{handle_heartbeat, handle_datetime_sync}
use lemon_server.Center.Terminal.Reports.Kept.{
  handle_std_status_report-Keeps, handle_def_status_report-Keeps, reported-Keeps,
  handle_gps_report-Keeps, handle_param_query_response-Keeps, handle_param_alert_report-Keeps,
  handle_param_modify_response-Keeps, handle_log_report-Keeps, handle_control_ack-Keeps,
}
use lemon_server.Center.Terminal.Upgrade.Kept.{
  handle_request_file-Keeps, handle_deny_upgrade-Keeps, handle_agree_upgrade-Keeps,
  handle_upgrade_result-Keeps, handle_upgrade_cancel_ack-Keeps,
}
use lemon_server.Center.World.{Env, World}
use lemon_server.Center.Monad.Declared.{only_specified_lem, only_specified_ended}
use lemon_server.Center.Terminal.Reports.{reported, handle_events_report}
use lemon_server.Center.Terminal.Reports.Declared.{reported-Declared}
use mathlib.Core.Path.{subst}
use lemon_server.Common.{sym, ◌≡◌, ◌⊎◌, inl, inr, Bool-cases}
use lemon_server.Protocol.Errors.{must_authrize, unknown_message}
use lemon_server.Protocol.MessageId.{
  MessageId, of_code, same_message, t2c_auth_request_0x0101, t2c_heartbeat_0x0b01,
  t2c_std_status_report_0x0301, t2c_def_status_report_0x0401, t2c_event_report_0x0501,
  t2c_bus_report_0x0901, t2c_gps_report_0x0902, t2c_datetime_sync_request_0x0a01,
  t2c_log_report_0x0c01, t2c_param_alter_report_0x0701, t2c_param_modiy_response_0x0802,
  t2c_param_query_response_0x0602, t2c_control_response_0x0d02, t2c_upgrade_agree_0x0203,
  t2c_upgrade_deny_0x0202, t2c_upgrade_file_request_0x0204, t2c_upgrade_result_report_0x0207,
  t2c_upgrade_cancel_ack_0x0209,
}

module _ (env : Env) (self : ℕ) where
  handle_heartbeat-Keeps : Keeps (handle_heartbeat env self)
  unfolding handle_heartbeat
  handle_heartbeat-Keeps = Keeps-skip

  handle_datetime_sync-Keeps : Keeps (handle_datetime_sync env self)
  unfolding handle_datetime_sync
  handle_datetime_sync-Keeps = search keeps depth 20

  pub by_id-Keeps :
      (id : ℕ) (m : Option MessageId)
      → m ≢ some t2c_auth_request_0x0101
      → m ≢ some t2c_bus_report_0x0901
      → m ≢ some t2c_event_report_0x0501
      → Keeps (by_id env self id m)
  unfolding by_id
  by_id-Keeps id (some t2c_auth_request_0x0101) a b c = absurd (a refl)
  by_id-Keeps id (some t2c_bus_report_0x0901) a b c = absurd (b refl)
  by_id-Keeps id (some t2c_heartbeat_0x0b01) a b c = handle_heartbeat-Keeps
  by_id-Keeps id (some t2c_std_status_report_0x0301) a b c = handle_std_status_report-Keeps env self
  by_id-Keeps id (some t2c_def_status_report_0x0401) a b c = handle_def_status_report-Keeps env self
  by_id-Keeps id (some t2c_event_report_0x0501) a b c = absurd (c refl)
  by_id-Keeps id (some t2c_gps_report_0x0902) a b c = handle_gps_report-Keeps env self
  by_id-Keeps id (some t2c_datetime_sync_request_0x0a01) a b c = handle_datetime_sync-Keeps
  by_id-Keeps id (some t2c_log_report_0x0c01) a b c = handle_log_report-Keeps env self
  by_id-Keeps id (some t2c_param_alter_report_0x0701) a b c =
      handle_param_alert_report-Keeps env self
  by_id-Keeps id (some t2c_param_modiy_response_0x0802) a b c =
      handle_param_modify_response-Keeps env self
  by_id-Keeps id (some t2c_param_query_response_0x0602) a b c =
      handle_param_query_response-Keeps env self
  by_id-Keeps id (some t2c_control_response_0x0d02) a b c = handle_control_ack-Keeps env self
  by_id-Keeps id (some t2c_upgrade_agree_0x0203) a b c = handle_agree_upgrade-Keeps env self
  by_id-Keeps id (some t2c_upgrade_deny_0x0202) a b c = handle_deny_upgrade-Keeps env self
  by_id-Keeps id (some t2c_upgrade_file_request_0x0204) a b c = handle_request_file-Keeps env self
  by_id-Keeps id (some t2c_upgrade_result_report_0x0207) a b c =
      handle_upgrade_result-Keeps env self
  by_id-Keeps id (some t2c_upgrade_cancel_ack_0x0209) a b c =
      handle_upgrade_cancel_ack-Keeps env self
  by_id-Keeps id _ a b c = Keeps-raise (Unit {0}) (unknown_message id)

  -- From the world `v` to `w` nothing has happened to the connection objects, the maps and the files, and the program
  -- is as it was, or it was terminated in a report of events, as the push server cannot be connected to.
  abbrev pub Ended : Option MessageId → World → World → Type 0
  Ended m v w =
      Same v w
      ⊎ ((m ≡ some t2c_event_report_0x0501)
          × (env.push_connects ≡ false)
          × Same (record v { terminated = true }) w)

  by_id-Ended :
      (id : ℕ) (m : Option MessageId) (s : Scene)
      → m ≢ some t2c_auth_request_0x0101
      → m ≢ some t2c_bus_report_0x0901
      → Ended m s.world (world_of (by_id env self id m s))
  by_id-Ended id m s a b = elim (same_message m t2c_event_report_0x0501) [
    | inr other ↦ inl (by_id-Keeps id m a b other s)
    | inl event ↦
        subst (λ (o : Option MessageId). Ended m s.world (world_of (by_id env self id o s)))
          (sym event) (unfold by_id in unfold handle_events_report in events_ended event)
  ]
    where
      events_ended :
          m ≡ some t2c_event_report_0x0501
          → Ended m s.world (world_of (only_specified (reported env self) s))
      events_ended event = elim (Bool-cases env.push_connects) [
        | inl connects ↦ inl (
            subst (λ (o : Out (Unit {0})). Same s.world (world_of o))
              (sym (only_specified_lem (reported env self) (reported-Declared env connects self) s))
              (reported-Keeps env self s))
        | inr fails ↦ elim (only_specified_ended (reported env self) s (reported-Keeps env self)) [
          | inl same ↦ inl same
          | inr dead ↦ inr (event, fails, dead)
        ]
      ]

  gated :
      (b : Bool) (m : Option MessageId) (s : Scene)
      → Ended m s.world (world_of (by_id env self s.request.head.id m s))
      → Ended m s.world
          (world_of ((if b then raise must_authrize else by_id env self s.request.head.id m) s))
  gated true m s h = inl (Same-refl s.world)
  gated false m s h = h

  -- Any message of a terminal whose id is neither that of the authentication request nor that of the
  -- business report, whatever is in it and whatever the database answers, and whether its handler
  -- throws or not: no connection object has changed or been added, nor the maps of connections, nor
  -- the files; and the program's life has not changed either, or else the message is a report of
  -- events, the push server cannot be connected to, and the program has been terminated.
  pub handle_other :
      (s : Scene)
      → of_code s.request.head.id ≢ some t2c_auth_request_0x0101
      → of_code s.request.head.id ≢ some t2c_bus_report_0x0901
      → Ended (of_code s.request.head.id) s.world (world_of (handle env self s))
  unfolding handle
  handle_other s a b =
      gated _ (of_code s.request.head.id) s
        (by_id-Ended s.request.head.id (of_code s.request.head.id) s a b)
