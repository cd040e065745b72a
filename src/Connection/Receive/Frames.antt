-- ===== src/Connection/Receive/Frames.antt =====
-- The framing of a byte stream, as a function of the bytes alone.
use lemon_server.Common.{
  ℕ, zero, suc, ◌≤◌, ◌<◌, ◌≡◌, Bool, true, false, ◌||◌, List, [], ◌∷◌, ◌++◌, Option, none, some,
  length, take, drop, length-drop, length-append, arith, ltb, leb, if◌then◌else◌, ap, ◌∙◌, ◌≢◌, All,
  append_assoc,
}
use lemon_server.Common.Bytes.{
  Bytes, le_value, take-append, drop-append, take-append_le, drop-append_le,
}
use lemon_server.Connection.Receive.{recv_capacity, min_message, message_length}

pub record Framed (S : Type 0) : Type 0 where
  pub good : Bool
  pub rest : Bytes
  pub state : S

module _ {S : Type 0} (handle_message : Bytes → S → Bool × S) where
  -- Handle the complete messages at the front of `bytes` in order, until one of them fails, until
  -- a length is out of range, or until less than a message is left.
  unfoldable pub frames : ℕ → Bytes → S → Option (Framed S)
  frames zero bytes s = none
  frames (suc fuel) bytes s =
      let len = message_length bytes in
      let (ret, s') = handle_message (take len bytes) s in
      let rest = frames fuel (drop len bytes) s' in
      if ltb (length bytes) min_message
      then some (record { good = true; rest = bytes; state = s })
      else if ltb recv_capacity len || ltb len min_message
      then some (record { good = false; rest = bytes; state = s })
      else if leb len (length bytes)
      then (if ret then rest else some (record { good = false; rest = drop len bytes; state = s' }))
      else some (record { good = true; rest = bytes; state = s })

  -- The loop ends within its fuel.
  pub frames-ne-none :
      (fuel : ℕ) (bytes : Bytes) (s : S) → length bytes < fuel → frames fuel bytes s ≢ none
  unfolding frames
  frames-ne-none zero bytes s h = absurd (omega arith)
  frames-ne-none (suc fuel) bytes s h =
      let len = message_length bytes in
      ground (
        arith,
        length-drop len bytes,
        frames-ne-none fuel (drop len bytes) (handle_message (take len bytes) s).1,
      )

  pub frames-rest :
      (fuel : ℕ) (bytes : Bytes) (s : S) (r : Framed S)
      → frames fuel bytes s ≡ some r
      → r.good ≡ true
      → length r.rest < recv_capacity
  unfolding frames
  frames-rest zero bytes s r e g = cc
  frames-rest (suc fuel) bytes s r e g =
      let len = message_length bytes in
      ground (arith, frames-rest fuel (drop len bytes) (handle_message (take len bytes) s).1 r)

  pub frames-le :
      (fuel : ℕ) (bytes : Bytes) (s : S) (r : Framed S)
      → frames fuel bytes s ≡ some r
      → length r.rest ≤ length bytes
  unfolding frames
  frames-le zero bytes s r e = cc
  frames-le (suc fuel) bytes s r e =
      let len = message_length bytes in
      ground (
        arith,
        length-drop len bytes,
        frames-le fuel (drop len bytes) (handle_message (take len bytes) s).1 r,
      )

  -- Handle messages one after the other until one fails.
  unfoldable pub handle_all : List Bytes → S → Bool × S
  handle_all [] s = (true, s)
  handle_all (m ∷ ms) s =
      let (ret, s') = handle_message m s in
      let rest = handle_all ms s' in if ret then rest else (false, s')

-- A complete message: its length field is its length, which is in range.
abbrev pub IsMessage : Bytes → Type 0
IsMessage m = (message_length m ≡ length m) × (min_message ≤ length m) × (length m ≤ recv_capacity)

abbrev pub concat : List Bytes → Bytes
concat [] = []
concat (m ∷ ms) = m ++ concat ms

message_length-append :
    (m rest : Bytes) → min_message ≤ length m → message_length (m ++ rest) ≡ message_length m
message_length-append m rest h =
    ap (λ (bs : Bytes). le_value (take 2 bs)) (drop-append_le 6 m rest (omega arith))
    ∙ ap le_value (take-append_le 2 (drop 6 m) rest (omega (arith, length-drop 6 m)))

module _ {S : Type 0} (handle_message : Bytes → S → Bool × S) where
  frames_step :
      (m rest : Bytes) (fuel : ℕ) (s : S)
      → IsMessage m
      → (handle_message m s).0 ≡ true
      → frames handle_message (suc fuel) (m ++ rest) s
        ≡ frames handle_message fuel rest (handle_message m s).1
  unfolding frames
  frames_step m rest fuel s v good =
      let len = message_length-append m rest v.1 ∙ v.0 in
      rw (len, take-append m rest, drop-append m rest, length-append m rest, good) (ground arith)

  -- Complete messages one behind the other, with less than a head behind them, where every message
  -- is handled well, and fuel for all the bytes: they are handled one by one, in order, the verdict
  -- is good, and what is behind them is left.
  pub frames-concat :
      (ms : List Bytes) (tail : Bytes) (fuel : ℕ) (s : S)
      → All IsMessage ms
      → length tail < min_message
      → length (concat ms ++ tail) < fuel
      → (handle_all handle_message ms s).0 ≡ true
      → frames handle_message fuel (concat ms ++ tail) s
        ≡ some (record { good = true; rest = tail; state = (handle_all handle_message ms s).1 })
  unfolding handle_all
  frames-concat ms tail zero s v small lt e = absurd (omega arith)
  frames-concat [] tail (suc fuel) s v small lt e = unfold frames in ground arith
  frames-concat (m ∷ ms) tail (suc fuel) s v small lt e =
      let good : (handle_message m s).0 ≡ true = ground arith in
      let s' = (handle_message m s).1 in
      ap (λ (bs : Bytes). frames handle_message (suc fuel) bs s) (append_assoc m (concat ms) tail)
      ∙ frames_step m (concat ms ++ tail) fuel s v.0 good
      ∙ frames-concat ms tail fuel s' v.1 small shorter (ground arith)
      ∙ ground arith
    where
      shorter : length (concat ms ++ tail) < fuel
      shorter = omega (
        arith,
        ap length (append_assoc m (concat ms) tail),
        length-append m (concat ms ++ tail),
        v.0.1,
      )
