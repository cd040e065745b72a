-- ===== src/Center/Terminal.antt =====
-- src/center/icslocalserver.cpp: `IcsTerminalClient`, the connection of a terminal.
pub mod Auth
pub mod Reports
pub mod Business
pub mod Upgrade
pub mod Kept
pub mod Routes
use lemon_server.Common.{ℕ, Bool, false, not, ◌&&◌, Option, none, some, ◌==◌, if◌then◌else◌}
use lemon_server.Common.Bytes.{is_empty}
use lemon_server.Center.Monad.{
  M, ◌>>=◌, ◌>>◌, raise, read, read_string, get_request, get_world, new_stream, build, send_on,
}
use lemon_server.Center.Terminal.Auth.{handle_auth_request, handle_heartbeat, handle_datetime_sync}
use lemon_server.Center.Terminal.Business.{handle_business_report}
use lemon_server.Center.Terminal.Reports.{
  handle_std_status_report, handle_def_status_report, handle_events_report, handle_gps_report,
  handle_param_query_response, handle_param_alert_report, handle_param_modify_response,
  handle_log_report, handle_control_ack,
}
use lemon_server.Center.Terminal.Upgrade.{
  handle_deny_upgrade, handle_agree_upgrade, handle_request_file, handle_upgrade_result,
  handle_upgrade_cancel_ack,
}
use lemon_server.Center.World.{World, Client, Env}
use lemon_server.Protocol.Errors.{must_authrize, unknown_message}
use lemon_server.Protocol.MessageId.{
  MessageId, code, of_code, t2c_auth_request_0x0101, t2c_heartbeat_0x0b01,
  t2c_std_status_report_0x0301, t2c_def_status_report_0x0401, t2c_event_report_0x0501,
  t2c_bus_report_0x0901, t2c_gps_report_0x0902, t2c_datetime_sync_request_0x0a01,
  t2c_log_report_0x0c01, t2c_param_alter_report_0x0701, t2c_param_modiy_response_0x0802,
  t2c_param_query_response_0x0602, t2c_control_response_0x0d02, t2c_upgrade_agree_0x0203,
  t2c_upgrade_deny_0x0202, t2c_upgrade_file_request_0x0204, t2c_upgrade_result_report_0x0207,
  t2c_upgrade_cancel_ack_0x0209,
}
use lemon_server.Protocol.Stream.{put_rest, init_request}

module _ (env : Env) (self : ℕ) where
  pub by_id : ℕ → Option MessageId → M (Unit {0})
  unfolding handle_auth_request handle_heartbeat handle_datetime_sync handle_business_report
      handle_std_status_report handle_def_status_report handle_events_report handle_gps_report
      handle_param_query_response handle_param_alert_report handle_param_modify_response
      handle_log_report handle_control_ack handle_deny_upgrade handle_agree_upgrade
      handle_request_file handle_upgrade_result handle_upgrade_cancel_ack
  by_id id (some t2c_auth_request_0x0101) = handle_auth_request env self
  by_id id (some t2c_heartbeat_0x0b01) = handle_heartbeat env self
  by_id id (some t2c_std_status_report_0x0301) = handle_std_status_report env self
  by_id id (some t2c_def_status_report_0x0401) = handle_def_status_report env self
  by_id id (some t2c_event_report_0x0501) = handle_events_report env self
  by_id id (some t2c_bus_report_0x0901) = handle_business_report env self
  by_id id (some t2c_gps_report_0x0902) = handle_gps_report env self
  by_id id (some t2c_datetime_sync_request_0x0a01) = handle_datetime_sync env self
  by_id id (some t2c_log_report_0x0c01) = handle_log_report env self
  by_id id (some t2c_param_alter_report_0x0701) = handle_param_alert_report env self
  by_id id (some t2c_param_modiy_response_0x0802) = handle_param_modify_response env self
  by_id id (some t2c_param_query_response_0x0602) = handle_param_query_response env self
  by_id id (some t2c_control_response_0x0d02) = handle_control_ack env self
  by_id id (some t2c_upgrade_agree_0x0203) = handle_agree_upgrade env self
  by_id id (some t2c_upgrade_deny_0x0202) = handle_deny_upgrade env self
  by_id id (some t2c_upgrade_file_request_0x0204) = handle_request_file env self
  by_id id (some t2c_upgrade_result_report_0x0207) = handle_upgrade_result env self
  by_id id (some t2c_upgrade_cancel_ack_0x0209) = handle_upgrade_cancel_ack env self
  by_id id _ = raise (unknown_message id)

  -- `handle`: nothing but an authentication request is handled before one was accepted.
  unfoldable pub handle : M (Unit {0})
  unfolding by_id
  handle = do
    r ← get_request
    w ← get_world
    if not (r.head.id == code t2c_auth_request_0x0101) && is_empty (w.clients self).gwid
        then raise must_authrize
        else by_id r.head.id (of_code r.head.id)

  -- `dispatch`: a message for the terminal, with the terminal's name and the message's id before it.
  unfoldable pub dispatch : M (Unit {0})
  unfolding read read_string new_stream build send_on put_rest init_request
  dispatch = do
    terminal_name ← read_string
    message_id ← read 2
    w ← new_stream
    r ← get_request
    w ← build w (put_rest r (record w { head = init_request message_id false w.head }))
    send_on self w
