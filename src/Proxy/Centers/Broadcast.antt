-- ===== src/Proxy/Centers/Broadcast.antt =====
-- What is sent to all centers reaches each of them.
use lemon_server.Common.{
  ℕ, suc, ◌+◌, ◌-◌, ◌%◌, ◌^◌, ◌≤◌, ◌≡◌, refl, ◌∙◌, ap, List, [], ◌∷◌, ◌++◌, some, none, length,
  length-append, arith, ◌==◌, ==_iff, if◌then◌else◌,
}
use lemon_server.Connection.Send.{SendArea, send_message, enqueue, enqueue_writer, try_send}
use lemon_server.Handler.Host
use lemon_server.Handler.Host.{taken}
use lemon_server.Handler.Steps.{bind_done}
use lemon_server.Pool
use lemon_server.Pool.{MemoryPool, MemoryChunk}
use lemon_server.Protocol.Errors.{Result, ok, throw}
use lemon_server.Protocol.Head.{head_bytes, head_size}
use lemon_server.Protocol.Stream.{Writer, copy_writer, new_writer, to_memory_chunk}
use lemon_server.Protocol.Stream.Message.{serialize-room, serialize_ok}
use lemon_server.Proxy.Centers.{send_to_each, send_to_ics_center}
use lemon_server.Proxy.Monad.{M, Scene, done, copy_stream, send_on, ◌>>=◌, ◌>>◌}
use lemon_server.Proxy.World.{World, proxy_host}

-- A stream with the same message, in the chunk at `a`.
abbrev copied : ℕ → ℕ → Writer → Writer
copied size a w = record {
  start = some a;
  head = w.head;
  body = w.body;
  room = size - 16 - length w.body;
}

abbrev without : Scene → List ℕ → Scene
without s rest = record s {
  world = record (s.world) { memory_pool = record (s.world.memory_pool) { chunk_list = rest } };
}

copy_ok :
    (w : Writer) (s : Scene) (a : ℕ) (rest : List ℕ)
    → s.world.memory_pool.chunk_list ≡ a ∷ rest
    → length w.body + 20 ≤ s.world.memory_pool.chunk_size
    → copy_stream w s
      ≡ done (copied s.world.memory_pool.chunk_size a w) (record s {
        world = record (s.world) {
          memory_pool = record (s.world.memory_pool) { chunk_list = rest };
        };
      })
unfolding copy_stream Host.copy_stream taken Pool.get copy_writer new_writer
copy_ok w s a rest e room = ground arith

-- The area after a chunk is queued.
length-enqueue :
    (c : MemoryChunk) (q : SendArea) → length (enqueue c q).send_list ≡ suc (length q.send_list)
unfolding enqueue try_send
length-enqueue c q = ground (arith, length-append q.send_list (c ∷ []))

to_memory_chunk_ok :
    (w : Writer) (a : ℕ)
    → w.start ≡ some a
    → (c : MemoryChunk) × (w' : Writer) × (to_memory_chunk w ≡ ok (c, w'))
unfolding to_memory_chunk
to_memory_chunk_ok w a e = (
  record {
    address = some a;
    length = head_size + length w.body;
    content = head_bytes w.head ++ w.body;
  },
  record w { start = none },
  ground arith,
)

enqueue_writer_ok :
    (w : Writer) (q : SendArea) (c : MemoryChunk) (w' : Writer)
    → to_memory_chunk w ≡ ok (c, w')
    → enqueue_writer (ok w) q ≡ (ok w', enqueue c q)
unfolding enqueue_writer
enqueue_writer_ok w q c w' e =
    ap
      (λ (r : Result (MemoryChunk × Writer)). elim r as (λ _. Result Writer × SendArea) [
        | throw e ↦ (throw e, q)
        | ok (c, w') ↦ (ok w', enqueue c q)
      ])
      e

abbrev counted : SendArea → SendArea
counted q = record q { serial_num = (q.serial_num + 1) % 2 ^ 16 }

send_message_ok :
    (w : Writer) (q : SendArea) (a : ℕ)
    → w.start ≡ some a
    → 4 ≤ w.room
    → (w' : Writer) × (q' : SendArea) × (send_message w q ≡ (ok w', q'))
      × (length q'.send_list ≡ suc (length q.send_list))
unfolding send_message
send_message_ok w q a e room =
    let (w1, e1) = serialize-room q.serial_num w room in
    let (c, w2, e2) = to_memory_chunk_ok w1 a ((serialize_ok q.serial_num w w1 e1).3 ∙ e) in
    (
      w2,
      enqueue c (counted q),
      ap (λ (r : Result Writer). enqueue_writer r (counted q)) e1
          ∙ enqueue_writer_ok w1 (counted q) c w2 e2,
      length-enqueue c (counted q),
    )

-- The chunks that wait on a connection, the one that is being sent included.
abbrev pub waiting : ℕ → World → ℕ
waiting j w = length (w.clients j).send.send_list

unfoldable pub times_in : ℕ → List ℕ → ℕ
times_in j [] = 0
times_in j (i ∷ is) = let rest = times_in j is in if i == j then suc rest else rest

-- `s'` is `s` with a chunk less in the pool, and one more on connection `i`.
abbrev Sent : ℕ → List ℕ → Scene → Scene → Type 0
Sent i rest s s' =
    (s'.world.memory_pool.chunk_list ≡ rest)
    × (s'.world.memory_pool.chunk_size ≡ s.world.memory_pool.chunk_size)
    × ((j : ℕ)
        → waiting j s'.world ≡ (if i == j then suc (waiting j s.world) else waiting j s.world))

send_on_ok :
    (i : ℕ) (w : Writer) (a : ℕ) (s : Scene)
    → w.start ≡ some a
    → 4 ≤ w.room
    → (s' : Scene) × (send_on i w s ≡ done tt s') × Sent i s.world.memory_pool.chunk_list s s'
unfolding send_on Host.send_on Host.sent
send_on_ok i w a s e room =
    let (w', q', sent, longer) = send_message_ok w (s.world.clients i).send a e room in
    (
      record s { world = proxy_host.set_area i q' s.world },
      ap (λ (r : Result Writer × SendArea). Host.sent proxy_host i w r.0 r.1 s) sent,
      (refl, refl, λ j. longer_at i j q' s.world longer),
    )
  where
    longer_at :
        (i j : ℕ) (q : SendArea) (v : World)
        → length q.send_list ≡ suc (waiting i v)
        → waiting j (proxy_host.set_area i q v)
          ≡ (if i == j then suc (waiting j v) else waiting j v)
    longer_at i j q v h = ground (arith, ==_iff i j)

-- One center: it gets a copy in the first free chunk.
send_one_ok :
    (i : ℕ) (w : Writer) (s : Scene) (a : ℕ) (rest : List ℕ) (others : M (Unit {0}))
    → s.world.memory_pool.chunk_list ≡ a ∷ rest
    → length w.body + 20 ≤ s.world.memory_pool.chunk_size
    → (s' : Scene) × ((copy_stream w >>= λ m. send_on i m >> others) s ≡ others s')
      × Sent i rest s s'
send_one_ok i w s a rest others e room =
    let copy = copied s.world.memory_pool.chunk_size a w in
    let (s', ran, sent) = send_on_ok i copy a (without s rest) refl (omega arith) in
    (
      s',
      bind_done (copy_stream w) (λ m. send_on i m >> others) s copy (copy_ok w s a rest e room)
          ∙ bind_done (send_on i copy) (λ _. others) (without s rest) tt ran,
      sent,
    )

send_to_each_ok :
    (is : List ℕ) (w : Writer) (s : Scene) (free : List ℕ)
    → s.world.memory_pool.chunk_list ≡ free
    → length is ≤ length free
    → length w.body + 20 ≤ s.world.memory_pool.chunk_size
    → (s' : Scene) × (send_to_each is w s ≡ done tt s')
      × ((j : ℕ) → waiting j s'.world ≡ times_in j is + waiting j s.world)
unfolding send_to_each times_in
send_to_each_ok [] w s free e enough room = (s, refl, λ j. omega arith)
send_to_each_ok (i ∷ is) w s [] e enough room = absurd (omega arith)
send_to_each_ok (i ∷ is) w s (a ∷ rest) e enough room =
    let (s1, ran, (free1, size1, wait1)) = send_one_ok i w s a rest (send_to_each is w) e room in
    let (s2, ran2, wait2) = send_to_each_ok is w s1 rest free1 (omega arith) (omega arith) in
    (s2, ran ∙ ran2, λ j. wait2 j ∙ ground (arith, wait1 j))

-- A message for the centers, where the pool has a free chunk for each of them, and the chunks have
-- room for the message with its CRC: `sendToIcsCenter` ends without a throw, and then on each
-- connection one message more waits to be sent for each time that it is among the centers, and on
-- every other connection as many as before.
pub send_to_ics_center_all :
    (w : Writer) (s : Scene)
    → length s.world.ics_center_conn_map ≤ length s.world.memory_pool.chunk_list
    → length w.body + 20 ≤ s.world.memory_pool.chunk_size
    → (s' : Scene) × (send_to_ics_center w s ≡ done tt s')
      × ((j : ℕ) → waiting j s'.world ≡ times_in j s.world.ics_center_conn_map + waiting j s.world)
unfolding send_to_ics_center
send_to_ics_center_all w s enough room =
    send_to_each_ok s.world.ics_center_conn_map w s s.world.memory_pool.chunk_list refl enough room
