-- ===== src/Connection/Receive/Kept.antt =====
-- What every message keeps, `handleData` keeps.
use lemon_server.Common.{
  ℕ, zero, suc, ◌+◌, ◌-◌, Bool, true, false, ◌||◌, Option, none, some, length, take, drop, ltb, leb,
  if◌then◌else◌,
}
use lemon_server.Common.Bytes.{Bytes}
use lemon_server.Connection.Receive.{
  RecvArea, Handled, handle_loop, handle_data, message_length, recv_capacity, min_message,
  overwrite,
}

-- A property holds of the state of an outcome, if there is one.
abbrev pub Ends : {S : Type 0} → (S → Type 0) → Option (Handled S) → Type 0
Ends P none = Unit
Ends P (some h) = P h.state

module _ {S : Type 0} (handle_message : Bytes → S → Bool × S) (P : S → Type 0)
    (keeps : (m : Bytes) (s : S) → P s → P (handle_message m s).1) where
  either : (b : Bool) (m n : Option (Handled S)) → Ends P m → Ends P n → Ends P (if b then m else n)
  either true m n h k = h
  either false m n h k = k

  handle_loop_lem :
      (fuel head size : ℕ) (buff : Bytes) (s : S)
      → P s
      → Ends P (handle_loop handle_message fuel head size buff s)
  unfolding handle_loop
  handle_loop_lem zero head size buff s h = tt
  handle_loop_lem (suc fuel) head size buff s h =
      let len = message_length (drop head buff) in
      let after = keeps (take len (drop head buff)) s h in
      either (ltb size min_message) _ _ h (
        either (ltb recv_capacity len || ltb len min_message) _ _ h (
          either (leb len size) _ _
            (either (handle_message (take len (drop head buff)) s).0 _ _
              (handle_loop_lem fuel (head + len) (size - len) buff
                (handle_message (take len (drop head buff)) s).1 after)
              after)
            h))

  pub handle_data_lem :
      (bytes : Bytes) (a : RecvArea) (s : S) → P s → Ends P (handle_data handle_message bytes a s)
  unfolding handle_data
  handle_data_lem bytes a s h =
      let size = a.recv_size + length bytes in
      handle_loop_lem (suc size) 0 size (overwrite a.recv_size bytes a.recv_buff) s h
