-- ===== src/Center/Terminal/Upgrade.antt =====
-- src/center/icslocalserver.cpp: the handlers of `IcsTerminalClient` for the upgrade of a terminal.
pub mod Fragment
pub mod Kept
use lemon_server.Common.{
  ℕ, ◌+◌, ◌-◌, ◌%◌, ◌^◌, Bool, ◌&&◌, List, [], ◌∷◌, Option, none, some, take, drop, ltb, ◌==◌,
  if◌then◌else◌,
}
use lemon_server.Center.Monad.{
  M, ◌>>=◌, ◌>>◌, pure, raise, read, read_string, request_empty, write, write_bytes, respond,
  respond_to, get_world, get_request, call,
}
use lemon_server.Center.World.{World, Client, Env}
use lemon_server.Database.{
  sp_upgrade_refuse, sp_upgrade_accept, sp_upgrade_set_progress, sp_upgrade_result,
  sp_upgrade_cancel_ack, text, int,
}
use lemon_server.Files.{FileInfo, file_length, get_file_info, upgrade_file_segmeng_size}
use lemon_server.Protocol.Errors.{offset_past_end}
use lemon_server.Protocol.MessageId.{
  code, c2t_upgrade_file_response_0x0206, c2t_upgrade_not_found_0x0205,
}

-- The length of the fragment to send: the sum is a `uint32_t`, the difference is cut to a
-- `uint16_t`, and then the length is limited.
unfoldable pub fragment_size : ℕ → ℕ → ℕ → ℕ
fragment_size fragment_offset fragment_length file_len =
    let wanted =
      if ltb file_len ((fragment_offset + fragment_length) % 2 ^ 32)
      then (file_len - fragment_offset) % 2 ^ 16
      else fragment_length in
    if ltb upgrade_file_segmeng_size wanted then upgrade_file_segmeng_size else wanted

module _ (env : Env) (self : ℕ) where
  abbrev monitor : M (List ℕ)
  monitor = get_world >>= λ w. pure (w.clients self).monitor_id

  unfoldable pub handle_deny_upgrade : M (Unit {0})
  unfolding read read_string request_empty call
  handle_deny_upgrade = do
    request_id ← read 4
    reason ← read_string
    request_empty
    id ← monitor
    call env sp_upgrade_refuse (text id ∷ int request_id ∷ text reason ∷ [])

  unfoldable pub handle_agree_upgrade : M (Unit {0})
  unfolding read request_empty call
  handle_agree_upgrade = do
    request_id ← read 4
    request_empty
    id ← monitor
    call env sp_upgrade_accept (text id ∷ int request_id ∷ [])

  -- No upgrade under way, or no such file. What is acknowledged is the request's own ack number.
  not_found : M (Unit {0})
  unfolding respond_to
  not_found = get_request >>= λ r. respond_to (code c2t_upgrade_not_found_0x0205) r.head.ack_num

  fragment : ℕ → ℕ → ℕ → ℕ → FileInfo → M (Unit {0})
  unfolding respond write write_bytes fragment_size
  fragment file_id request_id fragment_offset fragment_length f =
      if ltb (file_length f) fragment_offset
      then raise (offset_past_end fragment_offset (file_length f))
      else (do
        let size = fragment_size fragment_offset fragment_length (file_length f)
        respond (code c2t_upgrade_file_response_0x0206)
        write 4 file_id
        write 4 request_id
        write 4 fragment_offset
        write 2 size
        write_bytes (take size (drop fragment_offset f.file_content)))

  send_file : ℕ → ℕ → ℕ → ℕ → Bool → Option FileInfo → M (Unit {0})
  unfolding not_found fragment
  send_file file_id request_id fragment_offset fragment_length wanted none = not_found
  send_file file_id request_id fragment_offset fragment_length wanted (some f) =
      if wanted then fragment file_id request_id fragment_offset fragment_length f else not_found

  unfoldable pub handle_request_file : M (Unit {0})
  unfolding read request_empty call send_file get_file_info
  handle_request_file = do
    file_id ← read 4
    request_id ← read 4
    fragment_offset ← read 4
    fragment_length ← read 2
    received_size ← read 4
    request_empty
    call env sp_upgrade_set_progress (int request_id ∷ int received_size ∷ [])
    w ← get_world
    let result = env.progress_stat w.db
    send_file file_id request_id fragment_offset fragment_length
        (ltb 0 fragment_length && (result == 0)) (get_file_info file_id w.files)

  unfoldable pub handle_upgrade_result : M (Unit {0})
  unfolding read read_string request_empty call
  handle_upgrade_result = do
    request_id ← read 4
    upgrade_result ← read_string
    request_empty
    call env sp_upgrade_result (int request_id ∷ text upgrade_result ∷ [])

  unfoldable pub handle_upgrade_cancel_ack : M (Unit {0})
  unfolding read request_empty call
  handle_upgrade_cancel_ack = do
    request_id ← read 4
    request_empty
    call env sp_upgrade_cancel_ack (int request_id ∷ [])
