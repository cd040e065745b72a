-- ===== src/Connection/Tests.antt =====
-- A connection that receives and sends messages of twenty bytes.
use lemon_server.Common.{ℕ, zero, suc, ◌≡◌, refl, Bool, true, List, [], ◌∷◌, ◌++◌, some, arith}
use lemon_server.Common.Bytes.{Bytes}
use lemon_server.Connection.Receive.{RecvArea, Handled, handle_data}
use lemon_server.Connection.Receive.Frames.{Framed, frames, handle_all, concat}
use lemon_server.Connection.Receive.Reassembly.{Outcome, handle_data-frames, handle_data_messages}
use lemon_server.Connection.Receive.Refinement.{IsArea, pending}
use lemon_server.Connection.Send.{new_send_area, enqueue, send_done}
use lemon_server.Connection.Send.Order.{
  Trace, initial, Reach, here, next, queue, complete, Inv, Reach-Inv,
}
use lemon_server.Pool.{MemoryChunk, MemoryPool}

-- Keep every message.
abbrev record_message : Bytes → List Bytes → Bool × List Bytes
record_message m s = (true, s ++ m ∷ [])

abbrev zeros : ℕ → Bytes
zeros zero = []
zeros (suc n) = 0 ∷ zeros n

abbrev fresh : RecvArea
fresh = record { recv_buff = zeros 1024; recv_size = 0 }

fresh-IsArea : IsArea fresh
fresh-IsArea = record { capacity = refl; space = omega arith }

-- Only the length field is set.
abbrev twenty : Bytes
twenty = zeros 6 ++ (20 ∷ zeros 13)

abbrev two_messages : Bytes
two_messages = concat (twenty ∷ twenty ∷ [])

handle_data-frames_example :
    (h : Handled (List Bytes)) × (f : Framed (List Bytes)) × (handle_data record_message
        two_messages fresh []
      ≡ some h)
    × (frames record_message 41 two_messages [] ≡ some f)
    × Outcome two_messages h f
handle_data-frames_example =
    handle_data-frames record_message two_messages fresh [] fresh-IsArea (omega arith)

-- Behind the first message come three bytes of the second: the three bytes kept are zeros.
handle_data_messages_example :
    (h : Handled (List Bytes)) × (handle_data record_message
        (concat (twenty ∷ []) ++ 7 ∷ 8 ∷ 9 ∷ [])
        fresh
        []
      ≡ some h)
    × (h.good ≡ true)
    × (h.state ≡ twenty ∷ [])
    × (pending h.area ≡ 0 ∷ 0 ∷ 0 ∷ [])
unfolding handle_all
handle_data_messages_example =
    handle_data_messages record_message (twenty ∷ []) (7 ∷ 8 ∷ 9 ∷ []) fresh [] fresh-IsArea refl
      ((refl, omega arith, omega arith), tt) (omega arith) (omega arith) refl

abbrev chunk_at : ℕ → MemoryChunk
chunk_at a = record { address = some a; length = 20; content = a ∷ twenty }

abbrev empty_pool : MemoryPool
empty_pool = record { chunk_size = 512; chunk_count = 2; chunk_list = [] }

-- Two messages queued, the first one sent.
abbrev one_left : Trace
one_left = record {
  area = record { is_sending = true; send_list = chunk_at 2 ∷ []; serial_num = 0 };
  queued = (1 ∷ twenty) ∷ (2 ∷ twenty) ∷ [];
  sent = (1 ∷ twenty) ∷ [];
}

one_left-Reach : Reach initial one_left
unfolding enqueue send_done new_send_area
one_left-Reach =
    next (next (next here (queue (chunk_at 1))) (queue (chunk_at 2)))
      (complete {c = chunk_at 1} {a = one_left.area} empty_pool refl)

Reach-Inv_example : Inv one_left
Reach-Inv_example = Reach-Inv one_left-Reach
