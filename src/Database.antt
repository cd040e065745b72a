-- ===== src/Database.antt =====
-- The database as the servers use it: the statements that src/center/icslocalserver.cpp executes, with
-- their arguments. src/module/database.cpp only hands out connections of a pool of the OTL library.
-- What the stored procedures do and answer is not in the repository.
use lemon_server.Common.{ℕ}
use lemon_server.Common.{List}
use lemon_server.Common.Bytes.{Bytes}
use lemon_server.Protocol.Stream.{IcsDataTime}

-- A bound value. An `int` is the 32-bit pattern that was cast to it, and a `real` is the pattern of
-- a float as it came over the wire; `tenths n` is the float n * 0.1.
pub data SqlValue : Type 0 where
  text : Bytes → SqlValue
  int : ℕ → SqlValue
  real : ℕ → SqlValue
  tenths : ℕ → SqlValue
  timestamp : IcsDataTime → SqlValue

pub data Procedure : Type 0 where
  sp_authroize sp_online sp_offline : Procedure
  sp_status_standard sp_event_report : Procedure
  sp_business_vehicle sp_business_pack sp_business_expressway : Procedure
  sp_weight_report sp_business_overload sp_business_dayreport : Procedure
  sp_gps_report sp_param_query_result sp_param_report_modify sp_param_modify_result : Procedure
  sp_log_report sp_upgrade_refuse sp_upgrade_accept sp_upgrade_set_progress : Procedure
  sp_upgrade_result sp_upgrade_cancel_ack sp_control_result : Procedure
  sp_web_command_status sp_webcmd_to_remote_proxy : Procedure
  sp_remote_proxy_onoff_line sp_remote_terminal_onoff_line : Procedure
  sp_server_onoff_line sp_clear_connection_info : Procedure
  select_enterprise_address select_file_path select_monitoring_point : Procedure

pub record Call : Type 0 where
  pub procedure : Procedure
  pub args : List SqlValue
