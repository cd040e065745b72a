-- ===== src/Connection/Receive/Reassembly.antt =====
-- What one completed receive does, in terms of the byte stream.
use lemon_server.Common.{
  ℕ, suc, ◌+◌, ◌≤◌, ◌<◌, ◌≡◌, refl, sym, ap, ◌∙◌, Bool, true, List, ◌++◌, Option, none, some,
  length, take, length-append, length-take, arith, ltb, if◌then◌else◌, Bool-cases, Option-cases,
  ltb→lt, lt→ltb, some_eq, ltb-false→le, take-take, inl, inr, All,
}
use mathlib.Core.Path.{subst}
use lemon_server.Common.Bytes.{Bytes}
use lemon_server.Connection.Receive.{RecvArea, Handled, handle_data, recv_capacity, min_message}
use lemon_server.Connection.Receive.Frames.{
  Framed, frames, frames-ne-none, frames-rest, frames-le, frames-concat, handle_all, IsMessage,
  concat,
}
use lemon_server.Connection.Receive.Refinement.{
  pending, AgreeOn, Agrees, IsArea, received, length-received, take-received, handle_loop-frames,
  handle_loop-length,
}

-- What of `stream` the buffer holds on to, when `rest` is what the framing of the stream leaves.
abbrev pub kept : Bytes → Bytes → Bytes
kept rest stream = if ltb (length rest) min_message then take (length rest) stream else rest

pub record Outcome {S : Type 0} (stream : Bytes) (h : Handled S) (f : Framed S) : Type 0 where
  pub same_good : h.good ≡ f.good
  pub same_state : h.state ≡ f.state
  pub still_area : h.good ≡ true → IsArea h.area
  pub then_pending : h.good ≡ true → pending h.area ≡ kept f.rest stream

module _ {S : Type 0} (handle_message : Bytes → S → Bool × S) where
  agreeing :
      (buff : Bytes) (o : Option (Handled S)) (f : Framed S)
      → AgreeOn buff o (some f)
      → (h : Handled S) × (o ≡ some h) × Agrees buff h f
  agreeing buff none f e = absurd e
  agreeing buff (some h) f e = (h, refl, e)

  outcome :
      (bytes : Bytes) (a : RecvArea) (s : S) (h : Handled S) (f : Framed S)
      → IsArea a
      → a.recv_size + length bytes ≤ recv_capacity
      → handle_data handle_message bytes a s ≡ some h
      → frames handle_message (suc (a.recv_size + length bytes)) (pending a ++ bytes) s ≡ some f
      → Agrees (received bytes a) h f
      → Outcome (pending a ++ bytes) h f
  unfolding handle_data
  outcome bytes a s h f v fits eh ef (good, state, size, long, short) = record {
    same_good = good;
    same_state = state;
    still_area = λ g. record {
      capacity =
          handle_loop-length handle_message (suc (a.recv_size + length bytes)) 0
            (a.recv_size + length bytes) (received bytes a) s h
            (omega (arith, length-received bytes a, v.capacity)) eh
          ∙ length-received bytes a (omega (arith, v.capacity))
          ∙ v.capacity;
      space = omega (arith, size, frames-rest handle_message _ _ s f ef (sym good ∙ g));
    };
    then_pending = λ g. elim (Bool-cases (ltb (length f.rest) min_message)) [
      | inl less ↦ rw less (small (ltb→lt _ _ less))
      | inr more ↦ rw more (long g (ltb-false→le _ _ more))
    ];
  }
    where
      total : ℕ
      total = a.recv_size + length bytes

      below : length f.rest ≤ total
      below = omega (
        arith,
        frames-le handle_message _ _ s f ef,
        length-append (pending a) bytes,
        length-take a.recv_size a.recv_buff,
        v.capacity,
      )

      small :
          length f.rest < min_message → pending h.area ≡ take (length f.rest) (pending a ++ bytes)
      small less =
          ap (λ (n : ℕ). take n h.area.recv_buff) size
          ∙ ap (take (length f.rest)) (short less)
          ∙ sym (take-take (length f.rest) total (received bytes a) below)
          ∙ ap (take (length f.rest)) (take-received bytes a (omega (arith, v.capacity)))

  -- One completed receive of at most as many bytes as there was room for, on a well-formed receive
  -- area. `handleData` returns, and does to the state what the framing of the bytes pending before
  -- and the new ones does to it, with the same verdict. If the verdict is good, the area is well
  -- formed again, with room for the next receive; and what it holds pending is what the framing
  -- leaves over, if that is nothing or at least 20 bytes. If 1 to 19 bytes are left over, it is
  -- not those that are pending but as many from the start of the stream.
  pub handle_data-frames :
      (bytes : Bytes) (a : RecvArea) (s : S)
      → IsArea a
      → a.recv_size + length bytes ≤ recv_capacity
      → (h : Handled S) × (f : Framed S) × (handle_data handle_message bytes a s ≡ some h)
        × (frames handle_message (suc (a.recv_size + length bytes)) (pending a ++ bytes) s ≡ some f)
        × Outcome (pending a ++ bytes) h f
  unfolding handle_data
  handle_data-frames bytes a s v fits =
      elim (Option-cases (frames handle_message (suc total) stream s)) [
        | inl stuck ↦
            absurd (frames-ne-none handle_message (suc total) stream s (omega (arith, size)) stuck)
        | inr (f, ef) ↦
            let (h, eh, agrees) = agreeing (received bytes a) _ f (
              subst (λ o. AgreeOn (received bytes a) (handle_data handle_message bytes a s) o) ef
                (loop)) in
            (h, f, eh, ef, outcome bytes a s h f v fits eh ef agrees)
      ]
    where
      total : ℕ
      total = a.recv_size + length bytes

      stream : Bytes
      stream = pending a ++ bytes

      size : length stream ≡ total
      size =
          omega (
            arith,
            length-append (pending a) bytes,
            length-take a.recv_size a.recv_buff,
            v.capacity,
          )

      loop :
          AgreeOn
            (received bytes a)
            (handle_data handle_message bytes a s)
            (frames handle_message (suc total) stream s)
      loop =
          subst
            (λ w.
              AgreeOn (received bytes a) (handle_data handle_message bytes a s)
                (frames handle_message (suc total) w s))
            (take-received bytes a (omega (arith, v.capacity)))
            (handle_loop-frames handle_message (received bytes a) (suc total) 0 total s
              (omega (arith, length-received bytes a, v.capacity)))

  -- From an area with nothing pending, one receive of complete messages followed by fewer than 20
  -- bytes of the next one, where every message is handled well: the messages are handled one by
  -- one in order; and then the bytes pending are not the tail but as many from the start of what
  -- was received, so from the first message, if the tail is not empty.
  pub handle_data_messages :
      (ms : List Bytes) (tail : Bytes) (a : RecvArea) (s : S)
      → IsArea a
      → a.recv_size ≡ 0
      → All IsMessage ms
      → length tail < min_message
      → length (concat ms ++ tail) ≤ recv_capacity
      → (handle_all handle_message ms s).0 ≡ true
      → (h : Handled S) × (handle_data handle_message (concat ms ++ tail) a s ≡ some h)
        × (h.good ≡ true)
        × (h.state ≡ (handle_all handle_message ms s).1)
        × (pending h.area ≡ take (length tail) (concat ms ++ tail))
  handle_data_messages ms tail a s v empty whole small fits good =
      let bytes = concat ms ++ tail in
      let (h, f, eh, ef, o) = handle_data-frames bytes a s v (omega arith) in
      let all : frames handle_message (suc (a.recv_size + length bytes)) (pending a ++ bytes) s
          ≡ some (record { good = true; rest = tail; state = (handle_all handle_message ms s).1 }) =
        ap
          (λ (n : ℕ).
            frames handle_message (suc (a.recv_size + length bytes)) (take n a.recv_buff ++ bytes)
              s)
          empty
        ∙ frames-concat handle_message ms tail (suc (a.recv_size + length bytes)) s whole small
            (omega arith) good in
      let same : f
          ≡ record { good = true; rest = tail; state = (handle_all handle_message ms s).1 } =
        some_eq f _ (sym ef ∙ all) in
      let yes_good : h.good ≡ true = o.same_good ∙ ap (λ (g : Framed S). g.good) same in
      (
        h,
        eh,
        yes_good,
        o.same_state ∙ ap (λ (g : Framed S). g.state) same,
        o.then_pending yes_good
            ∙ ap (λ (g : Framed S). kept g.rest (pending a ++ bytes)) same
            ∙ ap (λ (n : ℕ). kept tail (take n a.recv_buff ++ bytes)) empty
            ∙ rw (lt→ltb _ _ small) refl,
      )
