-- ===== src/Connection/Send.antt =====
-- src/module/icsconnection.hpp: the send side, both overloads of `trySend`.
-- Each function is one critical section of `m_sendLock`. While `is_sending` holds, an `async_send`
-- of the front chunk is under way; its completion handler is `send_done` or, on an error,
-- `do_error`.
pub mod Order
use lemon_server.Common.{
  ℕ, ◌+◌, ◌%◌, ◌^◌, Bool, true, false, not, ◌&&◌, List, [], ◌∷◌, ◌++◌, Option, none, some,
  if◌then◌else◌,
}
use lemon_server.Pool.{MemoryChunk, MemoryPool, put}
use lemon_server.Protocol.Errors.{Result, ok, throw}
use lemon_server.Protocol.Stream.{Writer, serialize, to_memory_chunk}

pub record SendArea : Type 0 where
  pub is_sending : Bool
  pub send_list : List MemoryChunk
  pub serial_num : ℕ

unfoldable pub new_send_area : SendArea
new_send_area = record { is_sending = false; send_list = []; serial_num = 0 }

abbrev pub is_nil {ℓ} : {A : Type ℓ} → List A → Bool
is_nil [] = true
is_nil (x ∷ xs) = false

-- `trySend()`: start sending the front chunk, unless one is being sent or there is none.
unfoldable pub try_send : SendArea → SendArea
try_send a =
    if not a.is_sending && not (is_nil a.send_list) then record a { is_sending = true } else a

unfoldable pub enqueue : MemoryChunk → SendArea → SendArea
unfolding try_send
enqueue c a = try_send (record a { send_list = a.send_list ++ c ∷ [] })

-- The end of `trySend(msg)`, once the message is serialized.
unfoldable pub enqueue_writer : Result Writer → SendArea → Result Writer × SendArea
unfolding enqueue
enqueue_writer (throw e) a = (throw e, a)
enqueue_writer (ok w) a = elim (to_memory_chunk w) [
  | throw e ↦ (throw e, a)
  | ok (c, w') ↦ (ok w', enqueue c a)
]

-- `trySend(msg)`. The serial number is counted up before anything can throw.
unfoldable pub send_message : Writer → SendArea → Result Writer × SendArea
unfolding enqueue_writer
send_message w a =
    enqueue_writer (serialize a.serial_num w)
      (record a { serial_num = (a.serial_num + 1) % 2 ^ 16 })

-- The completion of the send that is under way: its chunk goes back to the pool.
done_from : SendArea → List MemoryChunk → MemoryPool → Option (MemoryChunk × SendArea × MemoryPool)
unfolding try_send put
done_from a [] p = none
done_from a (c ∷ rest) p =
    some (c, try_send (record a { is_sending = false; send_list = rest }), put c p)

-- `none` if nothing is under way: then no completion comes.
unfoldable pub send_done : SendArea → MemoryPool → Option (MemoryChunk × SendArea × MemoryPool)
unfolding done_from
send_done a p = if a.is_sending then done_from a a.send_list p else none
