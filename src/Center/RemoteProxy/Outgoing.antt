-- ===== src/Center/RemoteProxy/Outgoing.antt =====
-- src/center/icslocalserver.cpp: what `IcsRemoteProxyClient` sends to the remote proxy server of its own
-- accord or for another connection: `dispatch`, `requestAuthrize` and `sendHeartbeat`.
-- `ics::encrypt` has an empty body.
pub mod Routes
pub mod Upgrade
pub mod Effects
use lemon_server.Common.{ℕ, Bool, true, false, [], ◌∷◌, ◌==◌, if◌then◌else◌}
use lemon_server.Common.Bytes.{Bytes, is_empty}
use lemon_server.Center.Monad.{
  M, ◌>>=◌, ◌>>◌, pure, raise, read, read_string, request_rewind, request_skip, request_skip_string,
  get_request, get_world, new_stream, build, holding, lift, send_on, call,
}
use lemon_server.Center.World.{Env}
use lemon_server.Database.{select_file_path, text, int}
use lemon_server.Protocol.Errors.{file_not_found}
use lemon_server.Protocol.MessageId.{
  code, c2t_upgrade_request_0x0201, c2c_auth_request1_0x4001, c2c_forward_to_terminal_0x4004,
  c2c_heartbeat_0x4008,
}
use lemon_server.Protocol.Stream.{Writer, put_number, put_string, put_rest, init_request}

-- A new message to the proxy server, with its head.
abbrev pub new_message : ℕ → Bool → M Writer
unfolding new_stream init_request
new_message id need = do w ← new_stream; pure (record w { head = init_request id need w.head })

-- Everything behind the enterprise's id.
plain_body : Writer → M Writer
unfolding request_rewind request_skip_string lift put_rest
plain_body w = do request_rewind; request_skip_string; r ← get_request; lift (put_rest r w)

-- The terminal's name, the message's id, the path of the file, and the rest.
upgrade_body : Bytes → Writer → M Writer
unfolding request_rewind request_skip_string read read_string lift put_string put_number put_rest
upgrade_body filepath w = do
  request_rewind
  request_skip_string
  gwid ← read_string
  w ← lift (put_string 1 gwid w)
  message_id ← read 2
  w ← lift (put_number 2 message_id w)
  w ← lift (put_string 1 filepath w)
  r ← get_request
  lift (put_rest r w)

module _ (env : Env) where
  -- An upgrade request: the path is looked up by the file's id and the enterprise's.
  with_path : Bytes → Writer → M Writer
  unfolding request_skip read call upgrade_body
  with_path enteprise_id w = do
    request_skip 4
    file_id ← read 4
    call env select_file_path (int file_id ∷ text enteprise_id ∷ [])
    v ← get_world
    if is_empty (env.file_path v.db)
        then raise (file_not_found file_id)
        else upgrade_body (env.file_path v.db) w

  unfoldable pub forward_body : Writer → M Writer
  unfolding read read_string request_skip_string with_path plain_body
  forward_body w = do
    enteprise_id ← read_string
    request_skip_string
    message_id ← read 2
    if message_id == code c2t_upgrade_request_0x0201 then with_path enteprise_id w else plain_body w

  module _ (self : ℕ) where
    -- `dispatch`: the enterprise's id, the terminal's name, the message's id and its body.
    unfoldable pub dispatch : M (Unit {0})
    unfolding holding forward_body send_on
    dispatch = do
      w ← new_message (code c2c_forward_to_terminal_0x4004) false
      w ← holding w (forward_body w)
      send_on self w

    unfoldable pub request_authrize : M (Unit {0})
    unfolding build put_number send_on
    request_authrize = do
      w ← new_message (code c2c_auth_request1_0x4001) false
      w ← build w (put_number 8 env.clock w)
      send_on self w

    -- No function that is called sends it.
    unfoldable pub send_heartbeat : M (Unit {0})
    unfolding send_on
    send_heartbeat = do w ← new_message (code c2c_heartbeat_0x4008) true; send_on self w
