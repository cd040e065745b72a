-- ===== src/Protocol/Stream/RoundTrip.antt =====
-- What the `<<` operators write, the `>>` operators read back.
use lemon_server.Common.{
  ◌-◌, ℕ, ◌+◌, ◌%◌, ◌^◌, ◌≤◌, ◌<◌, ◌≡◌, refl, ◌∙◌, ◌++◌, length, take, drop, length-append,
  length-drop, append_assoc, arith, All,
}
use lemon_server.Common.Bytes.{
  Bytes, le_bytes, length-le_bytes, le_value-le_bytes, take-append_at, drop-append_at, take-append,
  drop-append, take-append_le, drop-append_le, c_str, c_str_lem,
}
use lemon_server.Protocol.Errors.{ok}
use lemon_server.Protocol.Head.{IcsMsgHead}
use lemon_server.Protocol.Stream.{
  Reader, Writer, put_number, put_string, append, get_number, get_text, get_string,
}

abbrev pub at_pos : IcsMsgHead → Bytes → Bytes → Reader
at_pos h b a = record { head = h; before = b; after = a }

pub get_number_at :
    (size n : ℕ) (h : IcsMsgHead) (b rest : Bytes)
    → n < 256 ^ size
    → get_number size (at_pos h b (le_bytes size n ++ rest))
      ≡ ok (n, at_pos h (b ++ le_bytes size n) rest)
unfolding get_number
get_number_at size n h b rest fits =
    rw
      (
        take-append_at (le_bytes size n) rest (length-le_bytes size n),
        drop-append_at (le_bytes size n) rest (length-le_bytes size n),
        length-append (le_bytes size n) rest,
        length-le_bytes size n,
        le_value-le_bytes size n fits,
      )
      (ground (arith))

get_text_at :
    (s : Bytes) (h : IcsMsgHead) (b rest : Bytes)
    → get_text (length s) (at_pos h b (s ++ rest)) ≡ ok (s, at_pos h (b ++ s) rest)
unfolding get_text
get_text_at s h b rest =
    rw (take-append s rest, drop-append s rest, length-append s rest) (ground arith)

pub get_string_at :
    (size : ℕ) (s : Bytes) (h : IcsMsgHead) (b rest : Bytes)
    → length s < 256 ^ size
    → get_string size (at_pos h b (le_bytes size (length s) ++ (s ++ rest)))
      ≡ ok (s, at_pos h (b ++ le_bytes size (length s) ++ s) rest)
unfolding get_string
get_string_at size s h b rest fits =
    rw (get_number_at size (length s) h b (s ++ rest) fits)
      (get_text_at s h (b ++ le_bytes size (length s)) rest)

-- What `put_string` appends when it does not throw.
pub put_string_ok :
    (size : ℕ) (s : Bytes) (w w' : Writer)
    → put_string size s w ≡ ok w'
    → (w'.body ≡ w.body ++ (le_bytes size (length (c_str s)) ++ c_str s))
      × (w'.head ≡ w.head)
      × (w'.start ≡ w.start)
      × (w'.room + size + length (c_str s) ≡ w.room)
unfolding put_string put_number append
put_string_ok size s w w' e =
    ground (arith, append_assoc w.body (le_bytes size (length (c_str s))) (c_str s))

string-back :
    (size : ℕ) (s : Bytes) (w w' : Writer) (h : IcsMsgHead) (b rest : Bytes)
    → All (λ c. 0 < c) s
    → length s < 256 ^ size
    → put_string size s w ≡ ok w'
    → get_string size (at_pos h b (drop (length w.body) w'.body ++ rest))
      ≡ ok (s, at_pos h (b ++ le_bytes size (length s) ++ s) rest)
string-back size s w w' h b rest nonzero fits e =
    let text = c_str_lem s nonzero in
    let added : drop (length w.body) w'.body ≡ le_bytes size (length s) ++ s =
      rw ((put_string_ok size s w w' e).0, drop-append w.body, text) refl in
    rw (added, append_assoc (le_bytes size (length s)) s rest) (get_string_at size s h b rest fits)

-- There is room for the length and the text.
put_string-room :
    (size : ℕ) (s : Bytes) (w : Writer)
    → length (c_str s) + size ≤ w.room
    → (w' : Writer) × (put_string size s w ≡ ok w')
unfolding put_string put_number append
put_string-room size s w room = (
  record w {
    body = w.body ++ le_bytes size (length (c_str s)) ++ c_str s;
    room = w.room - size - length (c_str s);
  },
  ground arith,
)

-- A string without NUL bytes that fits its length field, and room for both: `<<` writes it, and `>>`
-- with the same width reads the same string from the written bytes, whatever follows them.
pub get_string-put_string :
    (size : ℕ) (s : Bytes) (w : Writer) (h : IcsMsgHead) (b rest : Bytes)
    → All (λ c. 0 < c) s
    → length s < 256 ^ size
    → length s + size ≤ w.room
    → (w' : Writer) × (put_string size s w ≡ ok w')
      × (get_string size (at_pos h b (drop (length w.body) w'.body ++ rest))
          ≡ ok (s, at_pos h (b ++ le_bytes size (length s) ++ s) rest))
get_string-put_string size s w h b rest nonzero fits room =
    let (w', e) = put_string-room size s w (rw (c_str_lem s nonzero) room) in
    (w', e, string-back size s w w' h b rest nonzero fits e)

get_number_cut :
    (n : ℕ) (h : IcsMsgHead) (b rest : Bytes)
    → get_number 1 (at_pos h b (le_bytes 1 n ++ rest))
      ≡ ok (n % 256, at_pos h (b ++ le_bytes 1 n) rest)
unfolding get_number
get_number_cut n h b rest = ground arith

get_string_then :
    (size len : ℕ) (r r' : Reader)
    → get_number size r ≡ ok (len, r')
    → get_string size r ≡ get_text len r'
unfolding get_string
get_string_then size len r r' e = rw (e)

get_text_le :
    (n : ℕ) (s : Bytes) (h : IcsMsgHead) (b rest : Bytes)
    → n ≤ length s
    → get_text n (at_pos h b (s ++ rest))
      ≡ ok (take n s, at_pos h (b ++ take n s) (drop n s ++ rest))
unfolding get_text
get_text_le n s h b rest le =
    rw (take-append_le n s rest le, drop-append_le n s rest le, length-append s rest) (ground arith)

long-cut :
    (s : Bytes) (w w' : Writer) (h : IcsMsgHead) (b rest : Bytes)
    → All (λ c. 0 < c) s
    → 256 ≤ length s
    → put_string 1 s w ≡ ok w'
    → (r : Reader) × (get_string 1 (at_pos h b (drop (length w.body) w'.body ++ rest))
        ≡ ok (take (length s % 256) s, r))
      × (r.after ≡ drop (length s % 256) s ++ rest)
      × (length (drop (length s % 256) s) + length s % 256 ≡ length s)
long-cut s w w' h b rest nonzero long e =
    let n = length s % 256 in
    let text = c_str_lem s nonzero in
    let added : drop (length w.body) w'.body ≡ le_bytes 1 (length s) ++ s =
      rw ((put_string_ok 1 s w w' e).0, drop-append w.body, text) refl in
    (
      at_pos h (b ++ le_bytes 1 (length s) ++ take n s) (drop n s ++ rest),
      rw (added, append_assoc (le_bytes 1 (length s)) s rest)
          (get_string_then 1 n _ _ (get_number_cut (length s) h b (s ++ rest))
            ∙ get_text_le n s h (b ++ le_bytes 1 (length s)) rest (omega arith)),
      refl,
      omega (arith, length-drop n s),
    )

-- A string without NUL bytes of 256 bytes or more, and room for it: `operator << (const
-- ShortString&)` does not throw, and writes its length cut to a byte and all of its text, so `>>`
-- reads back only the first `length s % 256` bytes, and the remaining text is what the next read
-- starts from.
pub get_string-put_long :
    (s : Bytes) (w : Writer) (h : IcsMsgHead) (b rest : Bytes)
    → All (λ c. 0 < c) s
    → 256 ≤ length s
    → length s + 1 ≤ w.room
    → (w' : Writer) × (r : Reader) × (put_string 1 s w ≡ ok w')
      × (get_string 1 (at_pos h b (drop (length w.body) w'.body ++ rest))
          ≡ ok (take (length s % 256) s, r))
      × (r.after ≡ drop (length s % 256) s ++ rest)
      × (length (drop (length s % 256) s) + length s % 256 ≡ length s)
get_string-put_long s w h b rest nonzero long room =
    let (w', e) = put_string-room 1 s w (rw (c_str_lem s nonzero) room) in
    let (r, back, next, split) = long-cut s w w' h b rest nonzero long e in
    (w', r, e, back, next, split)
