-- ===== src/Proxy/Terminal.antt =====
-- src/proxy/icsproxyserver.cpp: `IcsProxyTerminalClient`, the connection of a terminal to the proxy server.
pub mod Reports
pub mod Upgrade
pub mod Gate
pub mod Kept
use lemon_server.Common.{
  ℕ, Bool, false, not, ◌&&◌, List, [], ◌∷◌, Option, none, some, ◌==◌, if◌then◌else◌,
}
use lemon_server.Common.Bytes.{Bytes, is_empty}
use lemon_server.Center.Terminal.Auth.{ok_text}
use lemon_server.Proxy.Centers.{onoff_line_to_ics_center}
use lemon_server.Proxy.Monad.{
  M, ◌>>=◌, ◌>>◌, pure, skip, raise, read, read_string, request_empty, write, write_string, respond,
  respond_to, get_request, get_world, modify,
}
use lemon_server.Proxy.Registry.{add_terminal_client}
use lemon_server.Proxy.Terminal.Reports.{
  handle_std_status_report, handle_def_status_report, handle_events_report, handle_business_report,
  handle_datetime_sync, handle_gps_report, handle_log_report,
}
use lemon_server.Proxy.Terminal.Upgrade.{
  handle_deny_upgrade, handle_agree_upgrade, handle_request_file, handle_upgrade_result,
  handle_upgrade_cancel_ack,
}
use lemon_server.Proxy.World.{World, Client, Env, change_client}
use lemon_server.Protocol.Errors.{must_authrize}
use lemon_server.Protocol.MessageId.{
  MessageId, code, of_code, c2t_auth_response_0x0102, t2c_auth_request_0x0101, t2c_heartbeat_0x0b01,
  t2c_std_status_report_0x0301, t2c_def_status_report_0x0401, t2c_event_report_0x0501,
  t2c_bus_report_0x0901, t2c_gps_report_0x0902, t2c_datetime_sync_request_0x0a01,
  t2c_log_report_0x0c01, t2c_upgrade_agree_0x0203, t2c_upgrade_deny_0x0202,
  t2c_upgrade_file_request_0x0204, t2c_upgrade_result_report_0x0207, t2c_upgrade_cancel_ack_0x0209,
}

module _ (env : Env) (self : ℕ) where
  repeat_auth : M (Unit {0})
  unfolding respond_to write_string write
  repeat_auth = do
    r ← get_request
    respond_to (code c2t_auth_response_0x0102) r.head.send_num
    write_string ok_text
    write 2 10

  -- The device kind is read into the member; any password is good.
  first_auth : M (Unit {0})
  unfolding read read_string request_empty respond write write_string add_terminal_client
      onoff_line_to_ics_center
  first_auth = do
    gw_id ← read_string
    gw_pwd ← read_string
    device_kind ← read 2
    modify (change_client self λ c. record c { device_kind = device_kind })
    extend_info ← read_string
    request_empty
    respond (code c2t_auth_response_0x0102)
    modify (change_client self λ c. record c { gwid = gw_id })
    write_string ok_text
    w ← get_world
    write 2 w.heartbeat_time
    modify (add_terminal_client gw_id self)
    onoff_line_to_ics_center self 0

  unfoldable pub handle_auth_request : M (Unit {0})
  unfolding repeat_auth first_auth
  handle_auth_request = do
    w ← get_world
    if not (is_empty (w.clients self).gwid) then repeat_auth else first_auth

  by_id : Option MessageId → M (Unit {0})
  unfolding handle_auth_request handle_std_status_report handle_def_status_report
      handle_events_report handle_business_report handle_datetime_sync handle_gps_report
      handle_log_report handle_deny_upgrade handle_agree_upgrade handle_request_file
      handle_upgrade_result handle_upgrade_cancel_ack
  by_id (some t2c_auth_request_0x0101) = handle_auth_request
  by_id (some t2c_heartbeat_0x0b01) = skip
  by_id (some t2c_std_status_report_0x0301) = handle_std_status_report env self
  by_id (some t2c_def_status_report_0x0401) = handle_def_status_report env self
  by_id (some t2c_event_report_0x0501) = handle_events_report env self
  by_id (some t2c_bus_report_0x0901) = handle_business_report env self
  by_id (some t2c_gps_report_0x0902) = handle_gps_report env self
  by_id (some t2c_datetime_sync_request_0x0a01) = handle_datetime_sync env self
  by_id (some t2c_log_report_0x0c01) = handle_log_report env self
  by_id (some t2c_upgrade_agree_0x0203) = handle_agree_upgrade self
  by_id (some t2c_upgrade_deny_0x0202) = handle_deny_upgrade self
  by_id (some t2c_upgrade_file_request_0x0204) = handle_request_file
  by_id (some t2c_upgrade_result_report_0x0207) = handle_upgrade_result self
  by_id (some t2c_upgrade_cancel_ack_0x0209) = handle_upgrade_cancel_ack self
  by_id _ = skip

  -- `handle`: nothing but an authentication request is handled before one was accepted; an unknown
  -- message is logged.
  unfoldable pub handle : M (Unit {0})
  unfolding by_id
  handle = do
    r ← get_request
    w ← get_world
    if not (r.head.id == code t2c_auth_request_0x0101) && is_empty (w.clients self).gwid
        then raise must_authrize
        else by_id (of_code r.head.id)
