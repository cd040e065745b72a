-- ===== src/Protocol/Stream/Room.antt =====
-- What the writing operators leave where there is room.
use lemon_server.Common.{
  ℕ, ◌+◌, ◌-◌, ◌≤◌, ◌<◌, ◌≡◌, ◌∙◌, ap, ◌++◌, length, arith, append_assoc, All,
}
use lemon_server.Common.Bytes.{Bytes, le_bytes, c_str, c_str_lem}
use lemon_server.Protocol.Errors.{ok}
use lemon_server.Protocol.Stream.{Reader, Writer, put_number, put_string, put_rest, append}

abbrev pub written : Bytes → ℕ → Writer → Writer
written bs size w = record w { body = w.body ++ bs; room = w.room - size }

pub put_number_room :
    (size n : ℕ) (w : Writer)
    → size ≤ w.room
    → put_number size n w ≡ ok (written (le_bytes size n) size w)
unfolding put_number
put_number_room size n w h = ground arith

pub put_rest_room :
    (r : Reader) (w : Writer)
    → length r.after ≤ w.room
    → put_rest r w ≡ ok (written r.after (length r.after) w)
unfolding put_rest append
put_rest_room r w h = ground arith

-- A short string with its length, in a writer.
abbrev pub short : Bytes → Bytes
short s = le_bytes 1 (length s) ++ s

put_c_str_room :
    (s : Bytes) (w : Writer)
    → length (c_str s) + 1 ≤ w.room
    → put_string 1 s w ≡ ok (written (short (c_str s)) (length (c_str s) + 1) w)
unfolding put_string put_number append
put_c_str_room s w h = ground (arith, append_assoc w.body (le_bytes 1 (length (c_str s))) (c_str s))

pub put_string_room :
    (s : Bytes) (w : Writer)
    → All (λ c. 0 < c) s
    → length s + 1 ≤ w.room
    → put_string 1 s w ≡ ok (written (short s) (length s + 1) w)
put_string_room s w nonzero h =
    let text = c_str_lem s nonzero in
    put_c_str_room s w (omega (arith, ap (length {A = ℕ}) text))
    ∙ ap (λ (t : Bytes). ok (written (short t) (length t + 1) w)) text
