-- ===== src/Center/Terminal/Auth.antt =====
-- src/center/icslocalserver.cpp: `IcsTerminalClient::handleAuthRequest`, and the other handlers that keep
-- the terminal's session: heartbeat and time synchronisation.
pub mod Malformed
pub mod Routes
use lemon_server.Common.{ℕ, not, [], ◌∷◌, ◌==◌, if◌then◌else◌}
use lemon_server.Common.Bytes.{Bytes, is_empty}
use lemon_server.Center.Monad.{
  M, ◌>>=◌, ◌>>◌, skip, read, read_string, read_time, request_empty, write, write_string,
  write_time, respond, respond_to, get_world, modify, get_request, call,
}
use lemon_server.Center.Registry.{add_terminal_client}
use lemon_server.Center.World.{World, Env, set_client}
use lemon_server.Database.{sp_authroize, sp_online, text, int}
use lemon_server.Protocol.MessageId.{
  code, c2t_auth_response_0x0102, c2t_datetime_sync_response_0x0a02,
}

-- "ok" and "failed"
abbrev pub ok_text : Bytes
ok_text = b'o' ∷ b'k' ∷ []

abbrev pub failed_text : Bytes
failed_text = b'f' ∷ b'a' ∷ b'i' ∷ b'l' ∷ b'e' ∷ b'd' ∷ []

-- Assignments to the object's own members.
abbrev pub set_gwid : ℕ → Bytes → World → World
set_gwid i g w = set_client i (record (w.clients i) { gwid = g }) w

abbrev pub set_monitor_id : ℕ → Bytes → World → World
set_monitor_id i m w = set_client i (record (w.clients i) { monitor_id = m }) w

abbrev pub set_device_kind : ℕ → ℕ → World → World
set_device_kind i k w = set_client i (record (w.clients i) { device_kind = k }) w

module _ (env : Env) (self : ℕ) where
  -- A repeated request: the terminal is known already.
  repeat_auth : M (Unit {0})
  unfolding respond_to write_string write
  repeat_auth = do
    r ← get_request
    w ← get_world
    respond_to (code c2t_auth_response_0x0102) r.head.send_num
    write_string ok_text
    write 2 w.heartbeat_time

  -- What follows the answer of `sp_authroize`.
  auth_result : ℕ → Bytes → M (Unit {0})
  unfolding write_string write call add_terminal_client
  auth_result ret monitor_id =
      if ret == 0
      then (do
        modify (set_monitor_id self monitor_id)
        w ← get_world
        let c = w.clients self
        call env sp_online (
            text c.gwid
            ∷ text c.monitor_id
            ∷ int c.device_kind
            ∷ text w.online_ip
            ∷ int w.online_port
            ∷ [])
        write_string ok_text
        write 2 w.heartbeat_time
        modify (add_terminal_client env c.gwid self))
      else (do modify (set_gwid self []); write_string failed_text)

  -- The rest of the first request, behind the gateway id.
  after_gwid : Bytes → M (Unit {0})
  unfolding read_string read request_empty respond auth_result call
  after_gwid gwid = do
    gw_pwd ← read_string
    device_kind ← read 2
    modify (set_device_kind self device_kind)
    extend_info ← read_string
    request_empty
    call env sp_authroize (text gwid ∷ text gw_pwd ∷ [])
    w ← get_world
    let (ret, monitor_id, monitor_name) = env.authroize w.db gwid gw_pwd
    respond (code c2t_auth_response_0x0102)
    auth_result ret monitor_id

  -- The first request. The members are read into directly: `m_gwid` is set before the request is
  -- known to be well formed, and before the password is checked.
  first_auth : M (Unit {0})
  unfolding read_string after_gwid
  first_auth = do gwid ← read_string; modify (set_gwid self gwid); after_gwid gwid

  unfoldable pub handle_auth_request : M (Unit {0})
  unfolding repeat_auth first_auth
  handle_auth_request = do
    w ← get_world
    if not (is_empty (w.clients self).gwid) then repeat_auth else first_auth

  unfoldable pub handle_heartbeat : M (Unit {0})
  handle_heartbeat = skip

  unfoldable pub handle_datetime_sync : M (Unit {0})
  unfolding read_time request_empty respond write_time
  handle_datetime_sync = do
    dt1 ← read_time
    request_empty
    respond (code c2t_datetime_sync_response_0x0a02)
    write_time dt1
    write_time env.now
    write_time env.now
