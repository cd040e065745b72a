-- ===== src/Protocol/Stream.antt =====
-- src/module/icsprotocol.hpp and .cpp: `ProtocolStream`, as two types for its two uses.
-- A `Reader` (readType) is a received message: its head, the body bytes in front of `m_pos`, and
-- those from `m_pos` to `m_end`. A `Writer` (writeType) is a message under construction in a chunk
-- of the pool: its head, the body bytes written so far, and the number of bytes left to `m_end`.
-- So `length()` is 16 + |before| or 16 + |body|, and `leftLength()` is |after| or `room`.
pub mod RoundTrip
pub mod Room
pub mod Moves
pub mod Time
pub mod Message
use lemon_server.Common.{
  ℕ, ◌+◌, ◌-◌, ◌*◌, ◌%◌, ◌^◌, ◌≤◌, ◌<◌, ◌≡◌, refl, Bool, true, false, not, List, [], ◌∷◌, ◌++◌,
  Option, none, some, length, take, drop, arith, ltb, leb, ◌==◌, if◌then◌else◌,
}
use lemon_server.Common.Bytes.{Bytes, le_bytes, le_value, c_str, same}
use lemon_server.Crc.{crc32_code}
use lemon_server.Pool.{MemoryChunk}
use lemon_server.Protocol.Errors.{
  Exception, bad_name, bad_version, bad_length, bad_crc_code, bad_buffer, chunk_moved, no_room,
  no_data, no_move_forward, no_move_back, superfluous, inside_head, not_enough_memory, Result, ok,
  throw, ◌>>=◌, ◌>>◌,
}
use lemon_server.Protocol.Head.{
  IcsMsgHead, new_head, head_bytes, head_of, head_size, crc_code_size, field,
  ics_head_protocol_name, ics_head_protocol_version, set_msg_id, set_length, set_send_num,
  set_ack_num, set_flag,
}

pub record Reader : Type 0 where
  pub head : IcsMsgHead
  pub before : Bytes
  pub after : Bytes

pub record Writer : Type 0 where
  pub start : Option ℕ
  pub head : IcsMsgHead
  pub body : Bytes
  pub room : ℕ

-- IcsDataTime; `second` and `milesecond` are the low 6 and the high 10 bits of `sec_data`.
pub record IcsDataTime : Type 0 where
  pub year : ℕ
  pub month : ℕ
  pub day : ℕ
  pub hour : ℕ
  pub miniute : ℕ
  pub sec_data : ℕ

abbrev when : Bool → Exception → Result (Unit {0})
when true e = throw e
when false e = ok tt

-- `IcsMsgHead::verify` on the message `buf`, whose head is `h`. `getCrcCode` reads the four bytes
-- that end where the head's length says.
unfoldable pub verify : IcsMsgHead → Bytes → Result (Unit {0})
verify h buf = do
  when (not (same h.name ics_head_protocol_name)) bad_name
  when (not (h.version == ics_head_protocol_version)) (bad_version h.version)
  when (not (h.length == length buf)) (bad_length h.length (length buf))
  let crc = field (h.length - crc_code_size) 4 buf
  when (not (crc == crc32_code (take (length buf - crc_code_size) buf))) (bad_crc_code crc)

-- `ProtocolStream(readType, buf, length)`: the CRC bytes lie past the end.
unfoldable pub new_reader : Bytes → Result Reader
new_reader buf = do
  when (ltb (length buf) (head_size + crc_code_size)) (bad_buffer (length buf))
  verify (head_of buf) buf
  ok (record {
    head = head_of buf;
    before = [];
    after = take (length buf - head_size - crc_code_size) (drop head_size buf);
  })

-- `ProtocolStream(writeType, chunk)`
start_writer : Option ℕ → ℕ → Result Writer
unfolding new_head
start_writer none size = throw (bad_buffer size)
start_writer (some a) size =
    if ltb size (head_size + crc_code_size)
    then throw (bad_buffer size)
    else ok (record { start = some a; head = new_head; body = []; room = size - head_size })

unfoldable pub new_writer : MemoryChunk → Result Writer
unfolding start_writer
new_writer c = start_writer c.address c.length

-- `toMemoryChunk`
chunk_at : Option ℕ → Writer → Result (MemoryChunk × Writer)
chunk_at none w = throw chunk_moved
chunk_at (some a) w = ok (
  record {
    address = some a;
    length = head_size + length w.body;
    content = head_bytes w.head ++ w.body;
  },
  record w { start = none },
)

unfoldable pub to_memory_chunk : Writer → Result (MemoryChunk × Writer)
unfolding chunk_at
to_memory_chunk w = chunk_at w.start w

-- `ProtocolStream(rhs, chunk)`, a copy of what is written so far.
unfoldable pub copy_writer : Writer → MemoryChunk → Result Writer
unfolding new_writer
copy_writer rhs c = do
  w ← new_writer c
  if ltb (head_size + w.room) (head_size + length rhs.body)
      then throw (not_enough_memory (head_size + w.room) (head_size + length rhs.body))
      else ok (record w { head = rhs.head; body = rhs.body; room = w.room - length rhs.body })

-- `initHead`, for a request and for a response.
unfoldable pub init_request : ℕ → Bool → IcsMsgHead → IcsMsgHead
unfolding set_flag set_msg_id
init_request id need h = set_flag 0 0 (if need then 1 else 0) (set_msg_id id h)

unfoldable pub init_response : ℕ → ℕ → IcsMsgHead → IcsMsgHead
unfolding set_flag set_msg_id set_ack_num
init_response id ack h = set_ack_num ack (set_flag 0 1 0 (set_msg_id id h))

-- `append`
unfoldable pub append : Bytes → Writer → Result Writer
append bs w =
    if ltb w.room (length bs)
    then throw (no_room (length bs))
    else ok (record w { body = w.body ++ bs; room = w.room - length bs })

-- `operator << (const T&)` for the numbers of `size` bytes.
unfoldable pub put_number : ℕ → ℕ → Writer → Result Writer
put_number size n w =
    if ltb w.room size
    then throw (no_room size)
    else ok (record w { body = w.body ++ le_bytes size n; room = w.room - size })

-- `operator << <LengthType>(const char*)`; the length is cut to `size` bytes, the text is not.
unfoldable pub put_string : ℕ → Bytes → Writer → Result Writer
unfolding put_number append
put_string size s w =
    let text = c_str s in
    if ltb w.room (length text + size)
    then throw (no_room (length text))
    else (put_number size (length text) w >>= append text)

unfoldable pub put_time : IcsDataTime → Writer → Result Writer
unfolding put_number
put_time t w = if ltb w.room 8 then throw (no_room 8) else (do
  w ← put_number 2 t.year w
  w ← put_number 1 t.month w
  w ← put_number 1 t.day w
  w ← put_number 1 t.hour w
  w ← put_number 1 t.miniute w
  put_number 2 t.sec_data w)

-- `operator << (const ProtocolStream&)`: what the other stream has not read yet.
unfoldable pub put_rest : Reader → Writer → Result Writer
unfolding append
put_rest r w = append r.after w

-- `serialize`: the serial number, the length with the CRC, and the CRC of head and body.
unfoldable pub serialize : ℕ → Writer → Result Writer
unfolding put_number set_send_num set_length
serialize send_num w =
    let h = set_length (head_size + length w.body + crc_code_size) (set_send_num send_num w.head) in
    put_number 4 (crc32_code (head_bytes h ++ w.body)) (record w { head = h })

-- `operator >> (T&)`
unfoldable pub get_number : ℕ → Reader → Result (ℕ × Reader)
get_number size r =
    if ltb (length r.after) size
    then throw (no_data size)
    else ok (
      le_value (take size r.after),
      record r { before = r.before ++ take size r.after; after = drop size r.after },
    )

-- The `len` bytes at `m_pos`, as a string.
get_text : ℕ → Reader → Result (Bytes × Reader)
get_text len r =
    if ltb (length r.after) len
    then throw (no_data len)
    else ok (
      take len r.after,
      record r { before = r.before ++ take len r.after; after = drop len r.after },
    )

-- `operator >> (ShortString&)` (one length byte) and `operator >> (LongString&)` (two).
unfoldable pub get_string : ℕ → Reader → Result (Bytes × Reader)
unfolding get_number get_text
get_string size r = do (len, r') ← get_number size r; get_text len r'

unfoldable pub get_time : Reader → Result (IcsDataTime × Reader)
unfolding get_number
get_time r = if ltb (length r.after) 8 then throw (no_data 8) else (do
  (year, r) ← get_number 2 r
  (month, r) ← get_number 1 r
  (day, r) ← get_number 1 r
  (hour, r) ← get_number 1 r
  (miniute, r) ← get_number 1 r
  (sec_data, r) ← get_number 2 r
  ok (
    record {
      year = year;
      month = month;
      day = day;
      hour = hour;
      miniute = miniute;
      sec_data = sec_data;
    },
    r,
  ))

-- `moveForward<T>` for a type of `size` bytes.
unfoldable pub move_forward : ℕ → Reader → Result Reader
move_forward size r =
    if ltb (length r.after) size
    then throw (no_move_forward size)
    else ok (record r { before = r.before ++ take size r.after; after = drop size r.after })

-- `moveForward<ShortString>` and `moveForward<LongString>`
unfoldable pub move_forward_string : ℕ → Reader → Result Reader
unfolding get_number move_forward
move_forward_string size r = do (len, r') ← get_number size r; move_forward len r'

-- `moveBack`. The source lets the position go back into the head, down to `m_start`.
unfoldable pub move_back : ℕ → Reader → Result Reader
move_back offset r =
    let keep = length r.before - offset in
    if leb offset (length r.before)
    then ok (record r { before = take keep r.before; after = drop keep r.before ++ r.after })
    else if leb offset (head_size + length r.before)
    then throw inside_head
    else throw (no_move_back offset)

-- `rewind`
unfoldable pub rewind : Reader → Reader
rewind r = record r { before = []; after = r.before ++ r.after }

-- `assertEmpty`
unfoldable pub assert_empty : Reader → Result (Unit {0})
assert_empty r = when (not (length r.after == 0)) (superfluous (length r.after))
