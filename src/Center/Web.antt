-- ===== src/Center/Web.antt =====
-- src/center/icslocalserver.cpp: `IcsWebClient`, the connection of the web server, and the virtual
-- `dispatch` that it calls on other connections.
mod Tests
pub mod Status
pub mod Remote
pub mod Routes
use lemon_server.Common.{
  ℕ, ◌%◌, ◌^◌, Bool, false, not, ◌||◌, [], ◌∷◌, Option, none, some, ◌==◌, if◌then◌else◌,
}
use lemon_server.Common.Bytes.{Bytes, is_empty}
use lemon_server.Center.Monad.{
  M, ◌>>=◌, ◌>>◌, pure, skip, raise, read, read_string, request_empty, request_rewind, modify,
  get_request, get_world, try_ics, call, only_specified,
}
use lemon_server.Center.Registry.{find_terminal_client, find_remote_proxy, do_error}
use lemon_server.Center.RemoteProxy.Outgoing
use lemon_server.Center.RemoteProxy.Outgoing.{request_authrize}
use lemon_server.Center.Terminal
use lemon_server.Center.World.{
  Role, terminal_client, web_client, remote_proxy_client, Env, Connecting, bad_address, refused,
  connected, new_client, add_client,
}
use lemon_server.Database.{sp_web_command_status, select_enterprise_address, text, int}
use lemon_server.Protocol.Errors.{never_dispatched, unknown_message, std_exception}
use lemon_server.Protocol.MessageId.{
  MessageId, of_code, w2c_send_to_ics_terminal_0x2001, w2c_connect_remote_request_0x2002,
  w2c_disconnect_remote_0x2003, w2c_send_to_remote_terminal_0x2004,
}

module _ (env : Env) where
  -- The virtual call `conn->dispatch(request)`.
  dispatch_by : Role → ℕ → M (Unit {0})
  unfolding Terminal.dispatch Outgoing.dispatch
  dispatch_by terminal_client i = Terminal.dispatch env i
  dispatch_by remote_proxy_client i = Outgoing.dispatch env i
  dispatch_by web_client i = raise never_dispatched

  unfoldable pub dispatch_to : ℕ → M (Unit {0})
  unfolding dispatch_by
  dispatch_to i = do w ← get_world; dispatch_by (w.clients i).role i

  -- `conn->dispatch(request)` and what is caught: whether the message went out, or `none` is found.
  forward_to : Option ℕ → M Bool
  unfolding try_ics dispatch_to
  forward_to none = pure false
  forward_to (some i) = try_ics (dispatch_to i)

  abbrev command_status : ℕ → ℕ → ℕ → M (Unit {0})
  unfolding call
  command_status request_id message_id stat =
      call env sp_web_command_status (int request_id ∷ int message_id ∷ int stat ∷ [])

  ics_forward : Bytes → ℕ → ℕ → M (Unit {0})
  unfolding forward_to call find_terminal_client
  ics_forward gwid message_id request_id = do
    w ← get_world
    ret ← forward_to (find_terminal_client gwid w)
    command_status request_id message_id (if ret then 0 else 1)

  unfoldable pub handle_ics_forward : M (Unit {0})
  unfolding read read_string request_rewind ics_forward
  handle_ics_forward = do
    gwid ← read_string
    message_id ← read 2
    request_id ← read 4
    request_rewind
    if is_empty gwid then skip else ics_forward gwid message_id request_id

  -- A new connection to a remote proxy server is object `client_count`.
  connect_by : Bytes → Connecting → M (Unit {0})
  unfolding request_authrize
  connect_by remote_id bad_address = raise std_exception
  connect_by remote_id refused = skip
  connect_by remote_id connected = do
    w ← get_world
    modify (add_client (record (new_client remote_proxy_client) { enterprise_id = remote_id }))
    request_authrize env w.client_count

  connect_address : Bytes → Bytes → ℕ → M (Unit {0})
  unfolding connect_by
  connect_address remote_id ip port =
      if not (is_empty ip) || not (port == 0)
      then connect_by remote_id (env.connecting ip (port % 2 ^ 16))
      else skip

  connect_row : Bytes → Option (Bytes × ℕ) → M (Unit {0})
  unfolding connect_address
  connect_row remote_id none = connect_address remote_id [] env.stale_port
  connect_row remote_id (some (ip, port)) = connect_address remote_id ip port

  connect_new : Bytes → M (Unit {0})
  unfolding call connect_row
  connect_new remote_id = do
    call env select_enterprise_address (text remote_id ∷ [])
    w ← get_world
    connect_row remote_id (env.enterprise_address w.db)

  connect_remote : Bytes → Option ℕ → M (Unit {0})
  unfolding connect_new
  connect_remote remote_id (some conn) = skip
  connect_remote remote_id none = connect_new remote_id

  connect_request : M (Unit {0})
  unfolding read_string request_empty connect_remote find_remote_proxy
  connect_request = do
    remote_id ← read_string
    request_empty
    w ← get_world
    if is_empty remote_id then skip else connect_remote remote_id (find_remote_proxy remote_id w)

  unfoldable pub handle_connect_remote : M (Unit {0})
  unfolding only_specified connect_request
  handle_connect_remote = only_specified connect_request

  disconnect : Option ℕ → M (Unit {0})
  unfolding do_error
  disconnect none = skip
  disconnect (some i) = modify (do_error env i)

  unfoldable pub handle_disconnect_remote : M (Unit {0})
  unfolding read_string request_empty disconnect find_remote_proxy
  handle_disconnect_remote = do
    remote_id ← read_string
    request_empty
    w ← get_world
    disconnect (find_remote_proxy remote_id w)

  -- A forwarded message has no status; one that finds no proxy server has the status 0.
  remote_forward : Option ℕ → ℕ → ℕ → M (Unit {0})
  unfolding try_ics dispatch_to call
  remote_forward none message_id request_id = command_status request_id message_id 0
  remote_forward (some i) message_id request_id = do sent ← try_ics (dispatch_to i); skip

  unfoldable pub handle_remote_forward : M (Unit {0})
  unfolding read read_string request_rewind remote_forward find_remote_proxy
  handle_remote_forward = do
    enterprise_name ← read_string
    gwid ← read_string
    message_id ← read 2
    request_id ← read 4
    request_rewind
    w ← get_world
    if is_empty gwid
        then skip
        else remote_forward (find_remote_proxy enterprise_name w) message_id request_id

  by_id : ℕ → Option MessageId → M (Unit {0})
  unfolding handle_ics_forward handle_connect_remote handle_disconnect_remote handle_remote_forward
  by_id id (some w2c_send_to_ics_terminal_0x2001) = handle_ics_forward
  by_id id (some w2c_connect_remote_request_0x2002) = handle_connect_remote
  by_id id (some w2c_disconnect_remote_0x2003) = handle_disconnect_remote
  by_id id (some w2c_send_to_remote_terminal_0x2004) = handle_remote_forward
  by_id id _ = raise (unknown_message id)

  unfoldable pub handle : M (Unit {0})
  unfolding by_id
  handle = do r ← get_request; by_id r.head.id (of_code r.head.id)
