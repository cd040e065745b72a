-- ===== src/Center/RemoteProxy.antt =====
-- src/center/icslocalserver.cpp: `IcsRemoteProxyClient`, the connection to a remote proxy server.
-- The class derives from `IcsTerminalClient`, whose `handle` runs the messages of the terminals that
-- the proxy server forwards.
mod Tests
pub mod Outgoing
pub mod Gate
pub mod Forwarded
pub mod Accepted
pub mod Routes
use lemon_server.Common.{
  ℕ, ◌+◌, ◌-◌, ◌%◌, ◌^◌, Bool, true, false, not, ◌&&◌, ◌||◌, List, [], ◌∷◌, Option, none, some, ltb,
  leb, ◌==◌, if◌then◌else◌,
}
use lemon_server.Common.Bytes.{Bytes, is_empty}
use lemon_server.Center.Monad.{
  M, ◌>>=◌, ◌>>◌, pure, skip, raise, read, read_string, request_empty, write, respond, modify,
  get_request, get_world, set_request, try_both, call,
}
use lemon_server.Center.Registry.{add_remote_proxy}
use lemon_server.Center.Terminal
use lemon_server.Center.World.{World, Client, Env, find, insert, set_client}
use lemon_server.Database.{
  sp_remote_proxy_onoff_line, sp_webcmd_to_remote_proxy, sp_remote_terminal_onoff_line,
  select_monitoring_point, text, int,
}
use lemon_server.Protocol.Errors.{must_authrize, authrize_failed}
use lemon_server.Protocol.MessageId.{
  MessageId, code, of_code, c2c_auth_response_0x4002, c2c_auth_request2_0x4003,
  c2c_forward_response_0x4005, c2c_terminal_onoff_line_0x4006, c2c_forward_to_ics_0x4007,
}
use lemon_server.Protocol.Stream.{Reader, init_request}

-- `t3 - t1 < 5`, for two 64-bit signed numbers.
unfoldable pub in_time : ℕ → ℕ → Bool
in_time t3 t1 =
    let interval = (t3 + (2 ^ 64 - t1)) % 2 ^ 64 in ltb interval 5 || leb (2 ^ 63) interval

-- `m_remoteIdToDeviceIdMap[remoteID]`
local_id : Bytes → Client → Bytes
unfolding find
local_id remote_id c = elim (find remote_id c.remote_ids) [ none ↦ [] | some l ↦ l ]

module _ (env : Env) (self : ℕ) where
  abbrev change : (Client → Client) → M (Unit {0})
  change f = modify λ w. set_client self (f (w.clients self)) w

  set_local_id : Bytes → Bytes → M (Unit {0})
  unfolding insert
  set_local_id remote_id l = change λ c. record c { remote_ids = insert remote_id l c.remote_ids }

  query_local_id : Bytes → M Bytes
  unfolding call set_local_id
  query_local_id remote_id = do
    call env select_monitoring_point (text remote_id ∷ [])
    w ← get_world
    set_local_id remote_id (env.monitoring_point w.db)
    pure (env.monitoring_point w.db)

  -- `findLocalID`; a missing entry is made before the database is asked.
  unfoldable pub find_local_id : Bytes → M Bytes
  unfolding local_id set_local_id query_local_id
  find_local_id remote_id = do
    w ← get_world
    let l = local_id remote_id (w.clients self)
    set_local_id remote_id l
    if is_empty l then query_local_id remote_id else pure l

  accepted : ℕ → M (Unit {0})
  unfolding call respond write add_remote_proxy
  accepted t2 = do
    w ← get_world
    let ent = (w.clients self).enterprise_id
    call env sp_remote_proxy_onoff_line
        (text ent ∷ int 1 ∷ text w.online_ip ∷ int w.online_port ∷ [])
    change λ c. record c { is_legal = true }
    respond (code c2c_auth_request2_0x4003)
    write 8 t2
    modify (add_remote_proxy ent self)

  unfoldable pub handle_auth_response : M (Unit {0})
  unfolding read request_empty in_time accepted
  handle_auth_response = do
    t1 ← read 8
    t2 ← read 8
    request_empty
    if in_time env.clock t1 then accepted t2 else raise authrize_failed

  -- The reason is there only where the result is not 0.
  unfoldable pub handle_forward_response : M (Unit {0})
  unfolding read read_string request_empty call
  handle_forward_response = do
    gwid ← read_string
    message_id ← read 2
    request_id ← read 4
    result ← read 1
    w ← get_world
    let ent = (w.clients self).enterprise_id
    reason ← (if result == 0 then pure [] else read_string)
    call env sp_webcmd_to_remote_proxy
        (text ent ∷ int request_id ∷ int message_id ∷ int result ∷ text reason ∷ [])
    request_empty

  unfoldable pub handle_onoff_line : M (Unit {0})
  unfolding read read_string request_empty call
  handle_onoff_line = do
    gwid ← read_string
    dev_kind ← read 2
    status ← read 1
    request_empty
    w ← get_world
    call env sp_remote_terminal_onoff_line
        (text (w.clients self).enterprise_id ∷ text gwid ∷ int dev_kind ∷ int status ∷ [])

  -- The terminal's message, of which the rest of the request is the body. `initHead` also writes the
  -- head into the receive buffer, behind the back of `handleData`, which is no part of this state.
  forwarded : ℕ → Bytes → M (Unit {0})
  unfolding init_request try_both Terminal.handle
  forwarded msgid monitor_name = do
    set_request λ r. record r { head = init_request msgid false r.head }
    change λ c. record c { monitor_id = monitor_name }
    caught ← try_both (Terminal.handle env self)
    skip

  unfoldable pub handle_terminal_message : M (Unit {0})
  unfolding read read_string find_local_id forwarded
  handle_terminal_message = do
    remote_gwid ← read_string
    msgid ← read 2
    monitor_name ← find_local_id remote_gwid
    if is_empty monitor_name then skip else forwarded msgid monitor_name

  by_id : Option MessageId → M (Unit {0})
  unfolding handle_auth_response handle_forward_response handle_onoff_line handle_terminal_message
  by_id (some c2c_auth_response_0x4002) = handle_auth_response
  by_id (some c2c_forward_response_0x4005) = handle_forward_response
  by_id (some c2c_terminal_onoff_line_0x4006) = handle_onoff_line
  by_id (some c2c_forward_to_ics_0x4007) = handle_terminal_message
  by_id _ = skip

  -- `handle`: an unknown message is logged, and a heartbeat has nothing to do.
  unfoldable pub handle : M (Unit {0})
  unfolding by_id
  handle = do
    r ← get_request
    w ← get_world
    if not (r.head.id == code c2c_auth_response_0x4002) && not (w.clients self).is_legal
        then raise must_authrize
        else by_id (of_code r.head.id)
