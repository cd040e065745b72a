-- ===== src/Proxy/Terminal/Reports.antt =====
-- src/proxy/icsproxyserver.cpp: the handlers of `IcsProxyTerminalClient` that check a terminal's message
-- and forward it as it came, and the answer to a time request.
use lemon_server.Common.{ℕ, ◌+◌, ◌%◌, ◌^◌, ◌==◌, if◌then◌else◌}
use lemon_server.Proxy.Centers.{forward_to_ics_center}
use lemon_server.Proxy.Monad.{
  M, ◌>>=◌, ◌>>◌, skip, raise, read, read_string, read_long_string, read_time, request_empty,
  write_time, respond, respond_to, get_world, modify, lift,
}
use lemon_server.Proxy.World.{Env, change_client}
use lemon_server.Common.Bytes.{Bytes}
use lemon_server.Protocol.Errors.{undefined_encode_type}
use lemon_server.Protocol.MessageId.{code, message_id_min_0x0000}

module _ (env : Env) (self : ℕ) where
  -- The only known type of a status report.
  unfoldable pub standard_status : M (Unit {0})
  unfolding read read_string read_long_string request_empty forward_to_ics_center
  standard_status = do
    device_ligtht ← read 1
    device_status ← read_long_string
    cheat_ligtht ← read 1
    cheat_status ← read_string
    zero_point ← read 4
    request_empty
    forward_to_ics_center self

  unfoldable pub handle_std_status_report : M (Unit {0})
  unfolding read standard_status
  handle_std_status_report = do
    status_type ← read 4
    if status_type == 1 then standard_status else skip

  -- All of its code is in comments.
  unfoldable pub handle_def_status_report : M (Unit {0})
  handle_def_status_report = skip

  unfoldable pub handle_events_report : M (Unit {0})
  unfolding read read_time forward_to_ics_center
  handle_events_report = do event_time ← read_time; event_count ← read 2; forward_to_ics_center self

  -- `m_lastBusSerialNum` is read here and set nowhere.
  unfoldable pub handle_business_report : M (Unit {0})
  unfolding read read_time respond forward_to_ics_center
  handle_business_report = do
    report_time ← read_time
    business_no ← read 4
    business_type ← read 4
    w ← get_world
    if (w.clients self).last_bus_serial_num == business_no
        then respond (code message_id_min_0x0000)
        else forward_to_ics_center self

  -- The response has the id 0, with which none is sent unless the request asks for one.
  unfoldable pub handle_datetime_sync : M (Unit {0})
  unfolding read_time request_empty respond_to write_time
  handle_datetime_sync = do
    dt1 ← read_time
    request_empty
    w ← get_world
    let num = (w.clients self).send_num
    modify (change_client self λ c. record c { send_num = (num + 1) % 2 ^ 16 })
    respond_to (code message_id_min_0x0000) num
    write_time dt1
    write_time env.now
    write_time env.now

  unfoldable pub handle_gps_report : M (Unit {0})
  unfolding read request_empty forward_to_ics_center
  handle_gps_report = do
    postion_flag ← read 1
    longitude ← read 4
    latitude ← read 4
    height ← read 4
    speed ← read 4
    request_empty
    forward_to_ics_center self

  -- The text is converted only to see that it can be.
  unfoldable pub checked_text : ℕ → Bytes → M (Unit {0})
  unfolding lift
  checked_text encode_type log_value =
      if encode_type == 1
      then (do converted ← lift (env.gb2312_to_utf8 log_value); skip)
      else (if encode_type == 0 then skip else raise undefined_encode_type)

  unfoldable pub handle_log_report : M (Unit {0})
  unfolding read read_string read_time request_empty checked_text forward_to_ics_center
  handle_log_report = do
    status_time ← read_time
    log_level ← read 1
    encode_type ← read 1
    log_value ← read_string
    request_empty
    checked_text encode_type log_value
    forward_to_ics_center self
