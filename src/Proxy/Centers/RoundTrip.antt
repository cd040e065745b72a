-- ===== src/Proxy/Centers/RoundTrip.antt =====
-- The message with which the proxy server forwards a terminal's message, as the center reads it.
use lemon_server.Common.{
  ℕ, ◌+◌, ◌^◌, ◌≤◌, ◌<◌, ◌≡◌, refl, ◌∙◌, ap, [], ◌++◌, length, arith, append_assoc, All,
}
use lemon_server.Common.Bytes.{Bytes, le_bytes}
use lemon_server.Protocol.Errors.{ok}
use lemon_server.Protocol.Head.{IcsMsgHead}
use lemon_server.Protocol.Stream.{Reader, Writer, get_number, get_string}
use lemon_server.Protocol.Stream.Room.{
  written, put_number_room, put_rest_room, put_string_room, short,
}
use lemon_server.Protocol.Stream.RoundTrip.{at_pos, get_number_at, get_string_at}
use lemon_server.Proxy.Centers.Message.{forward_body}

-- The writer after each of the three parts.
abbrev with_gwid : Bytes → Writer → Writer
with_gwid gwid w = written (short gwid) (length gwid + 1) w

abbrev with_msgid : Bytes → ℕ → Writer → Writer
with_msgid gwid msgid w = written (le_bytes 2 msgid) 2 (with_gwid gwid w)

abbrev with_rest : Bytes → ℕ → Reader → Writer → Writer
with_rest gwid msgid r w = written r.after (length r.after) (with_msgid gwid msgid w)

forward_body_ok :
    (gwid : Bytes) (msgid : ℕ) (r : Reader) (w : Writer)
    → All (λ c. 0 < c) gwid
    → length gwid + 3 + length r.after ≤ w.room
    → forward_body gwid msgid r w ≡ ok (with_rest gwid msgid r w)
unfolding forward_body
forward_body_ok gwid msgid r w nonzero room = rw (put_string_room gwid w nonzero (omega arith)) (
    rw (put_number_room 2 msgid (with_gwid gwid w) (omega arith))
      (put_rest_room r (with_msgid gwid msgid w) (omega arith)))

-- A terminal's name without NUL bytes, of less than 256 bytes, a message's id of 16 bits and a
-- message of the terminal, in an empty stream with room for all three: `forwardToIcsCenter` writes
-- them without a throw, and what the center reads from the body is the name, then the id, and then
-- exactly the terminal's own message is left.
pub forward_body_read :
    (gwid : Bytes) (msgid : ℕ) (r : Reader) (w : Writer) (h : IcsMsgHead)
    → w.body ≡ []
    → All (λ c. 0 < c) gwid
    → length gwid < 256
    → msgid < 2 ^ 16
    → length gwid + 3 + length r.after ≤ w.room
    → (w' : Writer) × (r1 : Reader) × (r2 : Reader) × (forward_body gwid msgid r w ≡ ok w')
      × (get_string 1 (at_pos h [] w'.body) ≡ ok (gwid, r1))
      × (get_number 2 r1 ≡ ok (msgid, r2))
      × (r2.after ≡ r.after)
forward_body_read gwid msgid r w h empty nonzero len small room = (
  with_rest gwid msgid r w,
  at_pos h (short gwid) (le_bytes 2 msgid ++ r.after),
  at_pos h (short gwid ++ le_bytes 2 msgid) r.after,
  forward_body_ok gwid msgid r w nonzero room,
  ap (λ (bs : Bytes). get_string 1 (at_pos h [] bs)) layout
      ∙ get_string_at 1 gwid h [] (le_bytes 2 msgid ++ r.after) len,
  get_number_at 2 msgid h (short gwid) r.after small,
  refl,
)
  where
    layout :
        (with_rest gwid msgid r w).body
        ≡ le_bytes 1 (length gwid) ++ (gwid ++ (le_bytes 2 msgid ++ r.after))
    layout =
        ap (λ (bs : Bytes). ((bs ++ short gwid) ++ le_bytes 2 msgid) ++ r.after) empty
        ∙ append_assoc (short gwid) (le_bytes 2 msgid) r.after
        ∙ append_assoc (le_bytes 1 (length gwid)) gwid (le_bytes 2 msgid ++ r.after)
