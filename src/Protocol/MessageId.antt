-- ===== src/Protocol/MessageId.antt =====
-- src/module/icsprotocol.hpp: `enum MessageId`. The name T2C_control_response_0x0d02 is one that
-- src/center/icslocalserver.cpp dispatches on and the enum does not declare: it stands here with the
-- number that it is spelled with.
use lemon_server.Common.{
  ℕ, ◌≡◌, ◌≢◌, ◌⊎◌, inl, inr, refl, sym, ap, ◌∙◌, arith, Option, none, some, ◌==◌, ==_iff,
  Bool-cases, if◌then◌else◌,
}

pub data MessageId : Type 0 where
  message_id_min_0x0000 : MessageId
  t2c_min_0x0100 : MessageId
  t2c_auth_request_0x0101 : MessageId
  c2t_auth_response_0x0102 : MessageId
  c2t_upgrade_request_0x0201 : MessageId
  t2c_upgrade_deny_0x0202 : MessageId
  t2c_upgrade_agree_0x0203 : MessageId
  t2c_upgrade_file_request_0x0204 : MessageId
  c2t_upgrade_not_found_0x0205 : MessageId
  c2t_upgrade_file_response_0x0206 : MessageId
  t2c_upgrade_result_report_0x0207 : MessageId
  c2t_upgrade_cancel_0x0208 : MessageId
  t2c_upgrade_cancel_ack_0x0209 : MessageId
  t2c_std_status_report_0x0301 : MessageId
  t2c_def_status_report_0x0401 : MessageId
  t2c_event_report_0x0501 : MessageId
  c2t_param_query_request_0x0601 : MessageId
  t2c_param_query_response_0x0602 : MessageId
  t2c_param_alter_report_0x0701 : MessageId
  c2t_param_modiy_reuest_0x0801 : MessageId
  t2c_param_modiy_response_0x0802 : MessageId
  t2c_bus_report_0x0901 : MessageId
  t2c_gps_report_0x0902 : MessageId
  t2c_datetime_sync_request_0x0a01 : MessageId
  c2t_datetime_sync_response_0x0a02 : MessageId
  t2c_heartbeat_0x0b01 : MessageId
  t2c_log_report_0x0c01 : MessageId
  t2c_max : MessageId
  w2c_min_0x2000 : MessageId
  w2c_send_to_ics_terminal_0x2001 : MessageId
  w2c_connect_remote_request_0x2002 : MessageId
  w2c_disconnect_remote_0x2003 : MessageId
  w2c_send_to_remote_terminal_0x2004 : MessageId
  w2c_max : MessageId
  c2p_push_message_0x3001 : MessageId
  c2c_auth_request1_0x4001 : MessageId
  c2c_auth_response_0x4002 : MessageId
  c2c_auth_request2_0x4003 : MessageId
  c2c_forward_to_terminal_0x4004 : MessageId
  c2c_forward_response_0x4005 : MessageId
  c2c_terminal_onoff_line_0x4006 : MessageId
  c2c_forward_to_ics_0x4007 : MessageId
  c2c_heartbeat_0x4008 : MessageId
  message_id_max : MessageId
  t2c_control_response_0x0d02 : MessageId

-- The enumerators' numbers.
unfoldable pub code : MessageId → ℕ
code message_id_min_0x0000 = 0x0000
code t2c_min_0x0100 = 0x0100
code t2c_auth_request_0x0101 = 0x0101
code c2t_auth_response_0x0102 = 0x0102
code c2t_upgrade_request_0x0201 = 0x0201
code t2c_upgrade_deny_0x0202 = 0x0202
code t2c_upgrade_agree_0x0203 = 0x0203
code t2c_upgrade_file_request_0x0204 = 0x0204
code c2t_upgrade_not_found_0x0205 = 0x0205
code c2t_upgrade_file_response_0x0206 = 0x0206
code t2c_upgrade_result_report_0x0207 = 0x0207
code c2t_upgrade_cancel_0x0208 = 0x0208
code t2c_upgrade_cancel_ack_0x0209 = 0x0209
code t2c_std_status_report_0x0301 = 0x0301
code t2c_def_status_report_0x0401 = 0x0401
code t2c_event_report_0x0501 = 0x0501
code c2t_param_query_request_0x0601 = 0x0601
code t2c_param_query_response_0x0602 = 0x0602
code t2c_param_alter_report_0x0701 = 0x0701
code c2t_param_modiy_reuest_0x0801 = 0x0801
code t2c_param_modiy_response_0x0802 = 0x0802
code t2c_bus_report_0x0901 = 0x0901
code t2c_gps_report_0x0902 = 0x0902
code t2c_datetime_sync_request_0x0a01 = 0x0a01
code c2t_datetime_sync_response_0x0a02 = 0x0a02
code t2c_heartbeat_0x0b01 = 0x0b01
code t2c_log_report_0x0c01 = 0x0c01
code t2c_max = 0x0c02
code w2c_min_0x2000 = 0x2000
code w2c_send_to_ics_terminal_0x2001 = 0x2001
code w2c_connect_remote_request_0x2002 = 0x2002
code w2c_disconnect_remote_0x2003 = 0x2003
code w2c_send_to_remote_terminal_0x2004 = 0x2004
code w2c_max = 0x2005
code c2p_push_message_0x3001 = 0x3001
code c2c_auth_request1_0x4001 = 0x4001
code c2c_auth_response_0x4002 = 0x4002
code c2c_auth_request2_0x4003 = 0x4003
code c2c_forward_to_terminal_0x4004 = 0x4004
code c2c_forward_response_0x4005 = 0x4005
code c2c_terminal_onoff_line_0x4006 = 0x4006
code c2c_forward_to_ics_0x4007 = 0x4007
code c2c_heartbeat_0x4008 = 0x4008
code message_id_max = 0x4009
code t2c_control_response_0x0d02 = 0x0d02

-- The enumerator that `(MessageId)n` is, if it is one.
unfoldable pub of_code : ℕ → Option MessageId
of_code n =
    if n == 0x0000
    then some message_id_min_0x0000
    else if n == 0x0100
    then some t2c_min_0x0100
    else if n == 0x0101
    then some t2c_auth_request_0x0101
    else if n == 0x0102
    then some c2t_auth_response_0x0102
    else if n == 0x0201
    then some c2t_upgrade_request_0x0201
    else if n == 0x0202
    then some t2c_upgrade_deny_0x0202
    else if n == 0x0203
    then some t2c_upgrade_agree_0x0203
    else if n == 0x0204
    then some t2c_upgrade_file_request_0x0204
    else if n == 0x0205
    then some c2t_upgrade_not_found_0x0205
    else if n == 0x0206
    then some c2t_upgrade_file_response_0x0206
    else if n == 0x0207
    then some t2c_upgrade_result_report_0x0207
    else if n == 0x0208
    then some c2t_upgrade_cancel_0x0208
    else if n == 0x0209
    then some t2c_upgrade_cancel_ack_0x0209
    else if n == 0x0301
    then some t2c_std_status_report_0x0301
    else if n == 0x0401
    then some t2c_def_status_report_0x0401
    else if n == 0x0501
    then some t2c_event_report_0x0501
    else if n == 0x0601
    then some c2t_param_query_request_0x0601
    else if n == 0x0602
    then some t2c_param_query_response_0x0602
    else if n == 0x0701
    then some t2c_param_alter_report_0x0701
    else if n == 0x0801
    then some c2t_param_modiy_reuest_0x0801
    else if n == 0x0802
    then some t2c_param_modiy_response_0x0802
    else if n == 0x0901
    then some t2c_bus_report_0x0901
    else if n == 0x0902
    then some t2c_gps_report_0x0902
    else if n == 0x0a01
    then some t2c_datetime_sync_request_0x0a01
    else if n == 0x0a02
    then some c2t_datetime_sync_response_0x0a02
    else if n == 0x0b01
    then some t2c_heartbeat_0x0b01
    else if n == 0x0c01
    then some t2c_log_report_0x0c01
    else if n == 0x0c02
    then some t2c_max
    else if n == 0x2000
    then some w2c_min_0x2000
    else if n == 0x2001
    then some w2c_send_to_ics_terminal_0x2001
    else if n == 0x2002
    then some w2c_connect_remote_request_0x2002
    else if n == 0x2003
    then some w2c_disconnect_remote_0x2003
    else if n == 0x2004
    then some w2c_send_to_remote_terminal_0x2004
    else if n == 0x2005
    then some w2c_max
    else if n == 0x3001
    then some c2p_push_message_0x3001
    else if n == 0x4001
    then some c2c_auth_request1_0x4001
    else if n == 0x4002
    then some c2c_auth_response_0x4002
    else if n == 0x4003
    then some c2c_auth_request2_0x4003
    else if n == 0x4004
    then some c2c_forward_to_terminal_0x4004
    else if n == 0x4005
    then some c2c_forward_response_0x4005
    else if n == 0x4006
    then some c2c_terminal_onoff_line_0x4006
    else if n == 0x4007
    then some c2c_forward_to_ics_0x4007
    else if n == 0x4008
    then some c2c_heartbeat_0x4008
    else if n == 0x4009
    then some message_id_max
    else if n == 0x0d02
    then some t2c_control_response_0x0d02
    else none

pub of_code-code : (m : MessageId) → of_code (code m) ≡ some m
unfolding code of_code
of_code-code message_id_min_0x0000 = refl
of_code-code t2c_min_0x0100 = refl
of_code-code t2c_auth_request_0x0101 = refl
of_code-code c2t_auth_response_0x0102 = refl
of_code-code c2t_upgrade_request_0x0201 = refl
of_code-code t2c_upgrade_deny_0x0202 = refl
of_code-code t2c_upgrade_agree_0x0203 = refl
of_code-code t2c_upgrade_file_request_0x0204 = refl
of_code-code c2t_upgrade_not_found_0x0205 = refl
of_code-code c2t_upgrade_file_response_0x0206 = refl
of_code-code t2c_upgrade_result_report_0x0207 = refl
of_code-code c2t_upgrade_cancel_0x0208 = refl
of_code-code t2c_upgrade_cancel_ack_0x0209 = refl
of_code-code t2c_std_status_report_0x0301 = refl
of_code-code t2c_def_status_report_0x0401 = refl
of_code-code t2c_event_report_0x0501 = refl
of_code-code c2t_param_query_request_0x0601 = refl
of_code-code t2c_param_query_response_0x0602 = refl
of_code-code t2c_param_alter_report_0x0701 = refl
of_code-code c2t_param_modiy_reuest_0x0801 = refl
of_code-code t2c_param_modiy_response_0x0802 = refl
of_code-code t2c_bus_report_0x0901 = refl
of_code-code t2c_gps_report_0x0902 = refl
of_code-code t2c_datetime_sync_request_0x0a01 = refl
of_code-code c2t_datetime_sync_response_0x0a02 = refl
of_code-code t2c_heartbeat_0x0b01 = refl
of_code-code t2c_log_report_0x0c01 = refl
of_code-code t2c_max = refl
of_code-code w2c_min_0x2000 = refl
of_code-code w2c_send_to_ics_terminal_0x2001 = refl
of_code-code w2c_connect_remote_request_0x2002 = refl
of_code-code w2c_disconnect_remote_0x2003 = refl
of_code-code w2c_send_to_remote_terminal_0x2004 = refl
of_code-code w2c_max = refl
of_code-code c2p_push_message_0x3001 = refl
of_code-code c2c_auth_request1_0x4001 = refl
of_code-code c2c_auth_response_0x4002 = refl
of_code-code c2c_auth_request2_0x4003 = refl
of_code-code c2c_forward_to_terminal_0x4004 = refl
of_code-code c2c_forward_response_0x4005 = refl
of_code-code c2c_terminal_onoff_line_0x4006 = refl
of_code-code c2c_forward_to_ics_0x4007 = refl
of_code-code c2c_heartbeat_0x4008 = refl
of_code-code message_id_max = refl
of_code-code t2c_control_response_0x0d02 = refl

-- Whether an id is a certain message's.
pub same_message : (o : Option MessageId) (m : MessageId) → (o ≡ some m) ⊎ (o ≢ some m)
same_message none m = inr (λ e. cc)
same_message (some k) m = elim (Bool-cases (code k == code m)) [
  | inl yes_code ↦
      inl
        (sym (of_code-code k) ∙ ap of_code ((==_iff (code k) (code m)).0 yes_code) ∙ of_code-code m)
  | inr other ↦ inr λ e. ground (arith, other, ==_iff (code k) (code m), code_of_some k m e)
]
  where
    code_of_some :
        (k m : MessageId) → ◌≡◌ {A = Option MessageId} (some k) (some m) → code k ≡ code m
    code_of_some k m e = ap (λ (o : Option MessageId). elim o [ none ↦ 0 | some x ↦ code x ]) e
