-- ===== src/Connection/Receive.antt =====
-- src/module/icsconnection.hpp: the receive side, `do_read`'s buffer and `handleData`.
-- What a complete message does is `handle_message`, a parameter here: `handleMessage` with the
-- state that it changes.
pub mod Frames
pub mod Refinement
pub mod Reassembly
pub mod Kept
use lemon_server.Common.{
  ℕ, zero, suc, ◌+◌, ◌-◌, Bool, true, false, ◌||◌, ◌++◌, Option, none, some, length, take, drop,
  ltb, leb, ◌==◌, if◌then◌else◌,
}
use lemon_server.Common.Bytes.{Bytes}
use lemon_server.Protocol.Head.{field}

-- sizeof(m_recvBuff)
abbrev pub recv_capacity : ℕ
recv_capacity = 1024

-- sizeof(IcsMsgHead) + IcsMsgHead::CrcCodeSize
abbrev pub min_message : ℕ
min_message = 20

-- `m_recvBuff`, all 1024 bytes of it, and `m_recvSize`.
pub record RecvArea : Type 0 where
  pub recv_buff : Bytes
  pub recv_size : ℕ

-- A copy of `bs` into `buff` at `at`.
abbrev pub overwrite : ℕ → Bytes → Bytes → Bytes
overwrite start bs buff = take start buff ++ (bs ++ drop (start + length bs) buff)

-- `IcsMsgHead::getLength` at the front of some memory.
abbrev pub message_length : Bytes → ℕ
message_length = field 6 2

pub record Handled (S : Type 0) : Type 0 where
  pub good : Bool
  pub area : RecvArea
  pub state : S

abbrev pub area_of : Bytes → ℕ → RecvArea
area_of buff size = record { recv_buff = buff; recv_size = size }

-- `std::memmove(m_recvBuff, head, m_recvSize)`, if the head has moved.
abbrev pub move_front : ℕ → ℕ → Bytes → Bytes
move_front head size buff =
    if head == 0 then buff else overwrite 0 (take size (drop head buff)) buff

module _ {S : Type 0} (handle_message : Bytes → S → Bool × S) where
  -- The `while` loop; `none` is a loop that ran out of fuel, and no outcome of the source.
  unfoldable pub handle_loop : ℕ → ℕ → ℕ → Bytes → S → Option (Handled S)
  handle_loop zero head size buff s = none
  handle_loop (suc fuel) head size buff s =
      let len = message_length (drop head buff) in
      let (ret, s') = handle_message (take len (drop head buff)) s in
      let rest = handle_loop fuel (head + len) (size - len) buff s' in
      if ltb size min_message
      then some (record { good = true; area = area_of buff size; state = s })
      else if ltb recv_capacity len || ltb len min_message
      then some (record { good = false; area = area_of buff size; state = s })
      else if leb len size
      then (if ret
          then rest
          else some (record { good = false; area = area_of buff (size - len); state = s' }))
      else some (record { good = true; area = area_of (move_front head size buff) size; state = s })

  -- A completed `async_receive` of `bytes`, which asio put behind the bytes already there, and
  -- `handleData`. A round takes at least 20 bytes, so the fuel is enough (Refinement).
  unfoldable pub handle_data : Bytes → RecvArea → S → Option (Handled S)
  unfolding handle_loop
  handle_data bytes a s =
      let size = a.recv_size + length bytes in
      handle_loop (suc size) 0 size (overwrite a.recv_size bytes a.recv_buff) s
