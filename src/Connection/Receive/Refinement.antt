-- ===== src/Connection/Receive/Refinement.antt =====
-- `handleData` against the framing of the byte stream.
use lemon_server.Common.{
  ℕ, zero, suc, ◌+◌, ◌-◌, ◌≤◌, ◌<◌, ◌≡◌, refl, sym, ap, ◌∙◌, Bool, true, ◌||◌, ◌++◌, Option, none,
  some, length, take, drop, length-drop, length-take, length-append, append_assoc, drop-take,
  take-take, drop-drop, arith, ltb, leb, ◌==◌, if◌then◌else◌, Bool-cases, inl, inr,
}
use lemon_server.Common.Bytes.{Bytes, le_value, take-append_at}
use lemon_server.Connection.Receive.{
  RecvArea, Handled, handle_loop, overwrite, move_front, message_length, recv_capacity, min_message,
}
use lemon_server.Connection.Receive.Frames.{Framed, frames}

-- What the next `handleData` will take for the bytes already received.
abbrev pub pending : RecvArea → Bytes
pending a = take a.recv_size a.recv_buff

-- The length field of a window of at least a head's size.
message_length-take :
    (size : ℕ) (bs : Bytes) → min_message ≤ size → message_length (take size bs) ≡ message_length bs
message_length-take size bs h =
    ap (λ (k : ℕ). message_length (take k bs)) {y = 6 + (size - 6)} (omega arith)
    ∙ ap (λ (w : Bytes). le_value (take 2 w)) (drop-take 6 (size - 6) bs)
    ∙ ap le_value (take-take 2 (size - 6) (drop 6 bs) (omega arith))

module _ (buff : Bytes) (head size : ℕ) (inside : head + size ≤ length buff) where
  abbrev window : Bytes
  window = take size (drop head buff)

  length-window : length window ≡ size
  length-window = omega (arith, length-take size (drop head buff), length-drop head buff)

  take-window : (len : ℕ) → len ≤ size → take len window ≡ take len (drop head buff)
  take-window len h = take-take len size (drop head buff) h

  drop-window :
      (len : ℕ) → len ≤ size → drop len window ≡ take (size - len) (drop (head + len) buff)
  drop-window len h =
      ap (λ (k : ℕ). drop len (take k (drop head buff))) {y = len + (size - len)} (omega arith)
      ∙ drop-take len (size - len) (drop head buff)
      ∙ ap (take (size - len)) (drop-drop head len buff)

  pending-move_front :
      take size (if head == 0 then buff else window ++ drop (0 + size) buff) ≡ window
  pending-move_front = elim (Bool-cases (head == 0)) [
    | inl front ↦ rw front (ap (λ (k : ℕ). take size (drop k buff)) {x = 0} (ground arith))
    | inr moved ↦ rw moved (take-append_at window (drop (0 + size) buff) length-window)
  ]

module _ {S : Type 0} where
  abbrev pub Agrees : Bytes → Handled S → Framed S → Type 0
  Agrees buff h f =
      (h.good ≡ f.good)
      × (h.state ≡ f.state)
      × (h.area.recv_size ≡ length f.rest)
      × (h.good ≡ true → min_message ≤ length f.rest → pending h.area ≡ f.rest)
      × (length f.rest < min_message → h.area.recv_buff ≡ buff)

  -- Both ran out of fuel, or both ended and agree.
  abbrev pub AgreeOn : Bytes → Option (Handled S) → Option (Framed S) → Type 0
  AgreeOn buff none none = Unit
  AgreeOn buff none (some f) = ⊥
  AgreeOn buff (some h) none = ⊥
  AgreeOn buff (some h) (some f) = Agrees buff h f

module _ {S : Type 0} (handle_message : Bytes → S → Bool × S) (buff : Bytes) where
  pub handle_loop-frames :
      (fuel head size : ℕ) (s : S)
      → head + size ≤ length buff
      → AgreeOn buff
          (handle_loop handle_message fuel head size buff s)
          (frames handle_message fuel (take size (drop head buff)) s)
  unfolding handle_loop frames
  handle_loop-frames zero head size s inside = tt
  handle_loop-frames (suc fuel) head size s inside = elim (Bool-cases (ltb size min_message)) [
    | inl short ↦
        rw (total, short)
          (refl, refl, sym total, (λ _ long. absurd (ground (arith, total))), λ _. refl)
    | inr long ↦
        rw (total, long, message_length-take size (drop head buff) (ground arith))
          (elim (Bool-cases (ltb recv_capacity len || ltb len min_message)) [
            | inl bad ↦
                rw bad (refl, refl, sym total, (λ g. cc), λ lt. absurd (ground (arith, total)))
            | inr fine ↦ rw fine (elim (Bool-cases (leb len size)) [
              | inl whole ↦
                  rw
                    (
                      whole,
                      take-window buff head size inside len (ground arith),
                      drop-window buff head size inside len (ground arith),
                    )
                    (elim (Bool-cases (handle_message (take len (drop head buff)) s).0) [
                      | inl good ↦ rw good (
                          handle_loop-frames fuel (head + len) (size - len)
                            (handle_message (take len (drop head buff)) s).1 (ground arith))
                      | inr failed ↦
                          rw failed (refl, refl, sym (left (ground arith)), (λ g. cc), λ _. refl)
                    ])
              | inr part ↦ rw part (
                refl,
                refl,
                sym total,
                (λ _ _. pending-move_front buff head size inside),
                λ lt. absurd (ground (arith, total)),
              )
            ])
          ])
  ]
    where
      total : length (take size (drop head buff)) ≡ size
      total = length-window buff head size inside

      len : ℕ
      len = message_length (drop head buff)

      left : len ≤ size → length (take (size - len) (drop (head + len) buff)) ≡ size - len
      left h = length-window buff (head + len) (size - len) (omega arith)

-- The receive area between two completed receives: there is room for at least one more byte.
pub record IsArea (a : RecvArea) : Type 0 where
  pub capacity : length a.recv_buff ≡ recv_capacity
  pub space : a.recv_size < recv_capacity

module _ (bytes : Bytes) (a : RecvArea) where
  abbrev pub received : Bytes
  received = overwrite a.recv_size bytes a.recv_buff

  pub length-received :
      a.recv_size + length bytes ≤ length a.recv_buff → length received ≡ length a.recv_buff
  length-received h = omega (
    arith,
    length-append (take a.recv_size a.recv_buff)
        (bytes ++ drop (a.recv_size + length bytes) a.recv_buff),
    length-append bytes (drop (a.recv_size + length bytes) a.recv_buff),
    length-take a.recv_size a.recv_buff,
    length-drop (a.recv_size + length bytes) a.recv_buff,
  )

  pub take-received :
      a.recv_size + length bytes ≤ length a.recv_buff
      → take (a.recv_size + length bytes) received ≡ pending a ++ bytes
  take-received h =
      let tail = drop (a.recv_size + length bytes) a.recv_buff in
      ap (take (a.recv_size + length bytes)) (sym (append_assoc (pending a) bytes tail))
      ∙ take-append_at (pending a ++ bytes) tail
          (omega (arith, length-append (pending a) bytes, length-take a.recv_size a.recv_buff))

module _ {S : Type 0} (handle_message : Bytes → S → Bool × S) where
  length-move_front :
      (head size : ℕ) (buff : Bytes)
      → head + size ≤ length buff
      → length (move_front head size buff) ≡ length buff
  length-move_front head size buff h = ground (
    arith,
    length-append (take size (drop head buff))
        (drop (0 + length (take size (drop head buff))) buff),
    length-drop (0 + length (take size (drop head buff))) buff,
    length-window buff head size h,
  )

  pub handle_loop-length :
      (fuel head size : ℕ) (buff : Bytes) (s : S) (h : Handled S)
      → head + size ≤ length buff
      → handle_loop handle_message fuel head size buff s ≡ some h
      → length h.area.recv_buff ≡ length buff
  unfolding handle_loop
  handle_loop-length zero head size buff s h inside e = cc
  handle_loop-length (suc fuel) head size buff s h inside e =
      let len = message_length (drop head buff) in
      ground (
        arith,
        length-move_front head size buff,
        handle_loop-length fuel (head + len) (size - len) buff
            (handle_message (take len (drop head buff)) s).1 h,
      )
