-- ===== src/Proxy/Terminal/Upgrade.antt =====
-- src/proxy/icsproxyserver.cpp: the handlers of `IcsProxyTerminalClient` for the upgrade of a terminal.
pub mod Path
mod Tests
use lemon_server.Common.{
  ℕ, true, ◌∷◌, ◌++◌, Option, none, some, take, drop, ltb, ◌==◌, if◌then◌else◌,
}
use lemon_server.Center.Terminal.Upgrade.{fragment_size}
use lemon_server.Files.{FileInfo, FileMap, file_length, get_file_info, load_file_info}
use lemon_server.Proxy.Centers.{forward_to_ics_center}
use lemon_server.Proxy.Monad.{
  M, ◌>>=◌, ◌>>◌, skip, raise, read, read_string, request_empty, request_skip, request_skip_string,
  request_back, write, write_bytes, respond, respond_to, get_world, get_request, modify, new_stream,
  build, send_on,
}
use lemon_server.Proxy.World.{Env}
use lemon_server.Protocol.Errors.{offset_past_end, file_error}
use lemon_server.Protocol.MessageId.{
  code, c2t_upgrade_request_0x0201, c2t_upgrade_file_response_0x0206, c2t_upgrade_not_found_0x0205,
}
use lemon_server.Protocol.Stream.{put_rest, init_request}

module _ (self : ℕ) where
  unfoldable pub handle_deny_upgrade : M (Unit {0})
  unfolding read read_string request_empty forward_to_ics_center
  handle_deny_upgrade = do
    request_id ← read 4
    reason ← read_string
    request_empty
    forward_to_ics_center self

  -- The message is a number: an accepted upgrade and an acknowledged end of one.
  unfoldable pub number_only : M (Unit {0})
  unfolding read request_empty forward_to_ics_center
  number_only = do request_id ← read 4; request_empty; forward_to_ics_center self

  unfoldable pub handle_agree_upgrade : M (Unit {0})
  unfolding number_only
  handle_agree_upgrade = number_only

  unfoldable pub handle_upgrade_cancel_ack : M (Unit {0})
  unfolding number_only
  handle_upgrade_cancel_ack = number_only

  unfoldable pub handle_upgrade_result : M (Unit {0})
  unfolding read read_string request_empty forward_to_ics_center
  handle_upgrade_result = do
    request_id ← read 4
    upgrade_result ← read_string
    request_empty
    forward_to_ics_center self

-- No such file. What is acknowledged is the request's own ack number.
unfoldable pub not_found : M (Unit {0})
unfolding respond_to
not_found = get_request >>= λ r. respond_to (code c2t_upgrade_not_found_0x0205) r.head.ack_num

unfoldable pub fragment : ℕ → ℕ → ℕ → ℕ → FileInfo → M (Unit {0})
unfolding respond write write_bytes fragment_size
fragment file_id request_id fragment_offset fragment_length f =
    if ltb (file_length f) fragment_offset
    then raise (offset_past_end fragment_offset (file_length f))
    else (do
      let size = fragment_size fragment_offset fragment_length (file_length f)
      respond (code c2t_upgrade_file_response_0x0206)
      write 4 file_id
      write 4 request_id
      write 4 fragment_offset
      write 2 size
      write_bytes (take size (drop fragment_offset f.file_content)))

unfoldable pub send_file : ℕ → ℕ → ℕ → ℕ → Option FileInfo → M (Unit {0})
unfolding not_found fragment
send_file file_id request_id fragment_offset fragment_length none = not_found
send_file file_id request_id fragment_offset fragment_length (some f) =
    if ltb 0 fragment_length
    then fragment file_id request_id fragment_offset fragment_length f
    else not_found

unfoldable pub handle_request_file : M (Unit {0})
unfolding read request_empty send_file get_file_info
handle_request_file = do
  file_id ← read 4
  request_id ← read 4
  fragment_offset ← read 4
  fragment_length ← read 2
  received_size ← read 4
  request_empty
  w ← get_world
  send_file file_id request_id fragment_offset fragment_length (get_file_info file_id w.files)

-- The outcome of `loadFileInfo`, which throws or returns a file.
unfoldable pub loaded : Option FileInfo × FileMap → M (Unit {0})
loaded (some f, m) = modify λ w. record w { files = m }
loaded (none, m) = do modify λ w. record w { files = m }; raise file_error

module _ (env : Env) where
  -- An upgrade request names a file and, behind the request's id, the file's id. The position is
  -- then set back behind the name.
  unfoldable pub load_upgrade : M (Unit {0})
  unfolding read read_string request_skip request_back load_file_info loaded
  load_upgrade = do
    filename ← read_string
    request_skip 4
    fileid ← read 4
    request_back 8
    w ← get_world
    loaded (load_file_info env.open_file fileid (env.filedir ++ b'/' ∷ filename) w.files)

  -- `dispatch`: a message for the terminal, with the terminal's name and the message's id before it.
  unfoldable pub dispatch : ℕ → M (Unit {0})
  unfolding read request_skip_string load_upgrade new_stream build put_rest init_request send_on
  dispatch self = do
    request_skip_string
    message_id ← read 2
    (if message_id == code c2t_upgrade_request_0x0201 then load_upgrade else skip)
    w ← new_stream
    r ← get_request
    w ← build w (put_rest r (record w { head = init_request message_id true w.head }))
    send_on self w
