-- ===== src/Proxy/Center.antt =====
-- src/proxy/icsproxyserver.cpp: `IcsCenter`, the connection of a center to the proxy server.
-- `ics::decrypt` has an empty body. The text of an exception is a parameter.
pub mod Reply
use lemon_server.Common.{ℕ, Bool, false, List, [], ◌∷◌, Option, none, some, ◌==◌, if◌then◌else◌}
use lemon_server.Common.Bytes.{Bytes}
use lemon_server.Center.RemoteProxy.{in_time}
use lemon_server.Proxy.Monad.{
  M, Out, done, raised, ◌>>=◌, ◌>>◌, pure, skip, raise, read, read_string, request_empty,
  request_rewind, request_skip_string, write, write_string, respond, get_request, get_world, modify,
  new_message, drop_stream,
}
use lemon_server.Proxy.Registry.{find_terminal_client, add_ics_center_conn}
use lemon_server.Proxy.Terminal.Upgrade.{dispatch}
use lemon_server.Proxy.World.{World, Env}
use lemon_server.Protocol.Errors.{
  Exception, std_exception, unexpected, authrize_failed, unknown_message,
}
use lemon_server.Protocol.MessageId.{
  MessageId, code, of_code, c2t_upgrade_request_0x0201, c2c_auth_request1_0x4001,
  c2c_auth_response_0x4002, c2c_auth_request2_0x4003, c2c_forward_to_terminal_0x4004,
  c2c_forward_response_0x4005, c2c_terminal_onoff_line_0x4006, c2c_heartbeat_0x4008,
}

-- "Terminal can't be found"
abbrev pub no_terminal_text : Bytes
no_terminal_text =
    b'T' ∷ b'e' ∷ b'r' ∷ b'm' ∷ b'i' ∷ b'n' ∷ b'a' ∷ b'l' ∷ b' ' ∷ b'c' ∷ b'a' ∷ b'n' ∷ 39 ∷ b't'
    ∷ b' ' ∷ b'b' ∷ b'e' ∷ b' ' ∷ b'f' ∷ b'o' ∷ b'u' ∷ b'n' ∷ b'd' ∷ []

-- `catch (IcsException&)` and `catch (otl_exception&)`: what was caught.
exception_of : Out (Unit {0}) → Out (Option Exception)
exception_of (done _ s) = done none s
exception_of (raised std_exception s) = raised std_exception s
exception_of (raised unexpected s) = raised unexpected s
exception_of (raised e s) = done (some e) s

try_message : M (Unit {0}) → M (Option Exception)
unfolding exception_of
try_message m s = exception_of (m s)

module _ (env : Env) (self : ℕ) where
  unfoldable pub handle_authrize1 : M (Unit {0})
  unfolding read request_empty respond write
  handle_authrize1 = do
    t1 ← read 8
    request_empty
    respond (code c2c_auth_response_0x4002)
    write 8 t1
    write 8 env.clock

  -- The message about all terminals is begun and never sent.
  accepted : M (Unit {0})
  unfolding add_ics_center_conn new_message drop_stream
  accepted = do
    modify (add_ics_center_conn self)
    forward_stream ← new_message (code c2c_terminal_onoff_line_0x4006) false
    drop_stream forward_stream

  unfoldable pub handle_authrize2 : M (Unit {0})
  unfolding read request_empty in_time accepted
  handle_authrize2 = do
    t2 ← read 8
    request_empty
    if in_time env.clock t2 then accepted else raise authrize_failed

  -- The result, and the reason of a failure.
  failure : Bytes → M (Unit {0})
  unfolding write write_string
  failure reason = do write 1 1; write_string reason

  result_of : Option Exception → M (Unit {0})
  unfolding write failure
  result_of none = write 1 0
  result_of (some e) = failure (env.message e)

  forward_to : Option ℕ → M (Unit {0})
  unfolding request_rewind try_message dispatch result_of failure
  forward_to none = failure no_terminal_text
  forward_to (some conn) = do request_rewind; e ← try_message (dispatch env conn); result_of e

  unfoldable pub handle_forward_to_termianl : M (Unit {0})
  unfolding read read_string request_skip_string respond write write_string find_terminal_client
      forward_to
  handle_forward_to_termianl = do
    gateway_id ← read_string
    message_id ← read 2
    (if message_id == code c2t_upgrade_request_0x0201 then request_skip_string else skip)
    request_id ← read 4
    respond (code c2c_forward_response_0x4005)
    write_string gateway_id
    write 2 message_id
    write 4 request_id
    w ← get_world
    forward_to (find_terminal_client gateway_id w)

  by_id : ℕ → Option MessageId → M (Unit {0})
  unfolding handle_authrize1 handle_authrize2 handle_forward_to_termianl
  by_id id (some c2c_auth_request1_0x4001) = handle_authrize1
  by_id id (some c2c_auth_request2_0x4003) = handle_authrize2
  by_id id (some c2c_forward_to_terminal_0x4004) = handle_forward_to_termianl
  by_id id (some c2c_heartbeat_0x4008) = skip
  by_id id _ = raise (unknown_message id)

  unfoldable pub handle : M (Unit {0})
  unfolding by_id
  handle = do r ← get_request; by_id r.head.id (of_code r.head.id)
