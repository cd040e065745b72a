-- ===== src/Center/Terminal/Reports.antt =====
-- src/center/icslocalserver.cpp: the handlers of `IcsTerminalClient` that store a report of the
-- terminal, but for the business report. The status report of the user's own kind has an empty body.
pub mod Kept
pub mod Declared
use lemon_server.Common.{ℕ, zero, suc, ◌/◌, ◌%◌, [], ◌∷◌, ◌==◌, if◌then◌else◌}
use lemon_server.Common.Bytes.{Bytes}
use lemon_server.Center.Monad.{
  M, ◌>>=◌, ◌>>◌, pure, skip, raise, done, raised, read, read_string, read_long_string, read_time,
  request_empty, get_world, new_stream, build, call, only_specified,
}
use lemon_server.Handler.{lift}
use lemon_server.Center.Push.{push_send}
use lemon_server.Center.Push.Message.{push_body}
use lemon_server.Center.World.{Client, Env}
use lemon_server.Database.{
  sp_status_standard, sp_event_report, sp_gps_report, sp_param_query_result, sp_param_report_modify,
  sp_param_modify_result, sp_log_report, sp_control_result, text, int, real, timestamp,
}
use lemon_server.Protocol.Errors.{undefined_encode_type, Result, ok, throw}
use lemon_server.Protocol.Stream.{IcsDataTime}

module _ (env : Env) (self : ℕ) where
  abbrev this : M Client
  this = get_world >>= λ w. pure (w.clients self)

  standard_status : M (Unit {0})
  unfolding read read_string read_long_string request_empty call
  standard_status = do
    device_light ← read 1
    device_status ← read_long_string
    cheat_light ← read 1
    cheat_status ← read_string
    zero_point ← read 4
    request_empty
    c ← this
    call env sp_status_standard (
        text c.monitor_id
        ∷ text c.gwid
        ∷ int device_light
        ∷ text device_status
        ∷ int cheat_light
        ∷ text cheat_status
        ∷ real zero_point
        ∷ timestamp env.now
        ∷ [])

  -- Any type but 1 is only logged.
  unfoldable pub handle_std_status_report : M (Unit {0})
  unfolding read standard_status
  handle_std_status_report = do
    status_type ← read 4
    if status_type == 1 then standard_status else skip

  unfoldable pub handle_def_status_report : M (Unit {0})
  handle_def_status_report = skip

  -- One event: stored, and then sent to the push system.
  unfoldable pub event : IcsDataTime → M (Unit {0})
  unfolding read read_string call new_stream build push_send push_body
  event event_time = do
    event_id ← read 2
    event_type ← read 1
    event_value ← read_string
    c ← this
    call env sp_event_report (
        text c.monitor_id
        ∷ int c.device_kind
        ∷ int event_id
        ∷ int event_type
        ∷ text event_value
        ∷ timestamp event_time
        ∷ timestamp env.now
        ∷ [])
    w ← new_stream
    w ← build w (push_body c event_time event_id event_value w)
    push_send env w

  unfoldable pub events : IcsDataTime → ℕ → M (Unit {0})
  unfolding event
  events event_time zero = skip
  events event_time (suc n) = event event_time >> events event_time n

  unfoldable pub reported : M (Unit {0})
  unfolding read_time read events request_empty
  reported = do
    event_time ← read_time
    event_count ← read 2
    events event_time event_count
    request_empty

  unfoldable pub handle_events_report : M (Unit {0})
  unfolding only_specified reported
  handle_events_report = only_specified reported

  -- The flags are the bits 0, 1 and 2-4 of the first byte.
  unfoldable pub handle_gps_report : M (Unit {0})
  unfolding read request_empty call
  handle_gps_report = do
    flags ← read 1
    longitude ← read 4
    latitude ← read 4
    height ← read 4
    speed ← read 4
    request_empty
    c ← this
    call env sp_gps_report (
        text c.monitor_id
        ∷ int (flags % 2)
        ∷ int longitude
        ∷ int (flags / 2 % 2)
        ∷ int latitude
        ∷ int (flags / 4 % 8)
        ∷ int height
        ∷ int speed
        ∷ [])

  unfoldable pub query_results : ℕ → ℕ → M (Unit {0})
  unfolding read read_string call
  query_results request_id zero = skip
  query_results request_id (suc n) =
      (do
        net_id ← read 2
        param_id ← read 2
        param_type ← read 1
        param_value ← read_string
        call env sp_param_query_result
            (int request_id ∷ int net_id ∷ int param_id ∷ text param_value ∷ []))
      >> query_results request_id n

  unfoldable pub handle_param_query_response : M (Unit {0})
  unfolding read query_results
  handle_param_query_response = do
    request_id ← read 4
    param_count ← read 2
    query_results request_id param_count

  unfoldable pub alterations : IcsDataTime → ℕ → M (Unit {0})
  unfolding read read_string call
  alterations alert_time zero = skip
  alterations alert_time (suc n) =
      (do
        net_id ← read 2
        param_id ← read 2
        param_type ← read 1
        param_value ← read_string
        c ← this
        call env sp_param_report_modify (
            text c.monitor_id
            ∷ int c.device_kind
            ∷ timestamp alert_time
            ∷ int net_id
            ∷ int param_id
            ∷ text param_value
            ∷ []))
      >> alterations alert_time n

  unfoldable pub handle_param_alert_report : M (Unit {0})
  unfolding read_time read alterations
  handle_param_alert_report = do
    alert_time ← read_time
    param_count ← read 2
    alterations alert_time param_count

  unfoldable pub modify_results : ℕ → ℕ → M (Unit {0})
  unfolding read read_string call
  modify_results request_id zero = skip
  modify_results request_id (suc n) =
      (do
        net_id ← read 2
        param_id ← read 2
        result ← read_string
        call env sp_param_modify_result
            (int request_id ∷ int net_id ∷ int param_id ∷ text result ∷ []))
      >> modify_results request_id n

  unfoldable pub handle_param_modify_response : M (Unit {0})
  unfolding read modify_results
  handle_param_modify_response = do
    request_id ← read 4
    param_count ← read 2
    modify_results request_id param_count

  -- 0 is UTF-8 and 1 is GB2312.
  decoded : ℕ → Bytes → M Bytes
  unfolding lift
  decoded encode_type log_value =
      if encode_type == 1
      then lift (env.gb2312_to_utf8 log_value)
      else if encode_type == 0
      then pure log_value
      else raise undefined_encode_type

  unfoldable pub handle_log_report : M (Unit {0})
  unfolding read_time read read_string request_empty decoded call
  handle_log_report = do
    status_time ← read_time
    log_level ← read 1
    encode_type ← read 1
    log_value ← read_string
    request_empty
    log_value ← decoded encode_type log_value
    c ← this
    call env sp_log_report
        (text c.monitor_id ∷ timestamp status_time ∷ int log_level ∷ text log_value ∷ [])

  unfoldable pub handle_control_ack : M (Unit {0})
  unfolding read read_string request_empty call
  handle_control_ack = do
    request_id ← read 4
    operator_id ← read 2
    result ← read_string
    request_empty
    call env sp_control_result (int request_id ∷ int operator_id ∷ text result ∷ [])
