-- ===== src/Timer/Wheel/Expiry.antt =====
-- When a registered handler is called.
use mathlib.Core.Path.{fun_ext}
use lemon_server.Common.{
  ℕ, zero, suc, ◌+◌, ◌-◌, ◌*◌, ◌/◌, ◌%◌, ◌≤◌, ◌<◌, ◌≡◌, ◌≢◌, sym, ap, ◌∙◌, ◌∷◌, true, inl, inr,
  arith, ltb, leb, ◌==◌, Bool-cases, if◌then◌else◌,
}
use native.Mathlib.Nat.{mul-suc, mul-zero, div-add-mod, mod-lt, add-mod-mod}
use lemon_server.Timer.Wheel.{TimingWheel, task_add, add, tick_handlers, tick, handlers_at}

module _ {A : Type 0} (wheel_count : ℕ) (slot : ℕ) (th : A) where
  -- A tick passes an entry in another slot by.
  tick-other :
      (count : ℕ) (w : TimingWheel A)
      → w.current_point % wheel_count ≢ slot
      → tick wheel_count (task_add wheel_count slot count th w)
        ≡ task_add wheel_count slot count th (tick wheel_count w)
  unfolding tick task_add
  tick-other count w ne = λ i. record {
    wheel =
        fun_ext {f = (tick wheel_count (task_add wheel_count slot count th w)).wheel}
          {g = (task_add wheel_count slot count th (tick wheel_count w)).wheel} (λ j. ground arith)
          i;
    current_point = w.current_point + 1;
  }

  tick-later :
      (count : ℕ) (w : TimingWheel A)
      → w.current_point % wheel_count ≡ slot
      → 2 ≤ count
      → tick wheel_count (task_add wheel_count slot count th w)
        ≡ task_add wheel_count slot (count - 1) th (tick wheel_count w)
  unfolding tick task_add
  tick-later count w eq le = λ i. record {
    wheel =
        fun_ext {f = (tick wheel_count (task_add wheel_count slot count th w)).wheel}
          {g = (task_add wheel_count slot (count - 1) th (tick wheel_count w)).wheel}
          (λ j. ground arith) i;
    current_point = w.current_point + 1;
  }

  tick-now :
      (count : ℕ) (w : TimingWheel A)
      → w.current_point % wheel_count ≡ slot
      → count ≤ 1
      → tick wheel_count (task_add wheel_count slot count th w) ≡ tick wheel_count w
  unfolding tick task_add
  tick-now count w eq le = λ i. record {
    wheel =
        fun_ext {f = (tick wheel_count (task_add wheel_count slot count th w)).wheel}
          {g = (tick wheel_count w).wheel} (λ j. ground arith) i;
    current_point = w.current_point + 1;
  }

  tick_handlers-add :
      (count : ℕ) (w : TimingWheel A)
      → tick_handlers wheel_count (task_add wheel_count slot count th w) ≡ (
          if w.current_point % wheel_count == slot
          then (if leb count 1
              then th ∷ tick_handlers wheel_count w
              else tick_handlers wheel_count w)
          else tick_handlers wheel_count w)
  unfolding tick_handlers task_add
  tick_handlers-add count w = ground arith

mod_add_ne : (c k n : ℕ) → 0 < k → k < n → (c + k) % n ≢ c % n
mod_add_ne c k n pos lt e = grind arith

mod_add_full : (c n : ℕ) → 0 < n → (c + 1 + (n - 1)) % n ≡ c % n
mod_add_full c n pos = grind arith

shift_k : (c k n : ℕ) → 0 < k → (c + 1 + (k - 1)) % n ≡ (c + k) % n
shift_k c k n pos = ap (λ (m : ℕ). m % n) (omega arith)

le_mul : (a b : ℕ) → 1 ≤ b → a ≤ a * b
le_mul a b h = grind arith

one_round_less :
    (n count : ℕ) → 2 ≤ count → 0 < n → n - 1 + n * (count - 1 - 1) + 1 ≡ n * (count - 1)
one_round_less n count h pos =
    let e : count - 1 ≡ suc (count - 1 - 1) = omega arith in
    omega (arith, mul-suc n (count - 1 - 1), ap (λ (t : ℕ). n * t) e)

-- When the pointer has `k` slots to go to the entry's slot, the entry is called at tick
-- `k + wheel_count * (count - 1)` and at no other.
module _ {A : Type 0} (wheel_count : ℕ) (slot : ℕ) (th : A) where
  abbrev due : ℕ → ℕ → ℕ
  due k count = k + wheel_count * (count - 1)

  abbrev with_entry : ℕ → TimingWheel A → TimingWheel A
  with_entry count w = task_add wheel_count slot count th w

  abbrev Due : ℕ → ℕ → ℕ → TimingWheel A → Type 0
  Due n k count w =
      handlers_at wheel_count n (with_entry count w)
      ≡ (if n == due k count then th ∷ handlers_at wheel_count n w else handlers_at wheel_count n w)

  slot_now :
      (k : ℕ) (w : TimingWheel A)
      → k ≡ 0
      → (w.current_point + k) % wheel_count ≡ slot
      → w.current_point % wheel_count ≡ slot
  slot_now k w zero_k aim = ap (λ (m : ℕ). m % wheel_count) (omega arith) ∙ aim

  slot_later :
      (k : ℕ) (w : TimingWheel A)
      → 0 < k
      → k < wheel_count
      → (w.current_point + k) % wheel_count ≡ slot
      → w.current_point % wheel_count ≢ slot
  slot_later k w pos lt aim e = mod_add_ne w.current_point k wheel_count pos lt (aim ∙ sym e)

  Due-zero :
      (k count : ℕ) (w : TimingWheel A)
      → k < wheel_count
      → (w.current_point + k) % wheel_count ≡ slot
      → Due 0 k count w
  unfolding handlers_at
  Due-zero k count w lt aim =
      tick_handlers-add wheel_count slot th count w
      ∙ ground (arith, slot_now k w, slot_later k w, le_mul wheel_count (count - 1), count_zero)
    where
      count_zero : count ≤ 1 → wheel_count * (count - 1) ≡ 0
      count_zero h =
          let e : count - 1 ≡ 0 = omega arith in ap (λ (m : ℕ). wheel_count * m) e ∙ omega arith

  -- The wheel after a tick still has the entry, with the pointer one slot nearer, or it is gone.
  Due-suc :
      (n k count : ℕ) (w : TimingWheel A)
      → k < wheel_count
      → (w.current_point + k) % wheel_count ≡ slot
      → ((k' count' : ℕ)
          → k' < wheel_count
          → (w.current_point + 1 + k') % wheel_count ≡ slot
          → Due n k' count' (tick wheel_count w))
      → Due (suc n) k count w
  unfolding handlers_at
  Due-suc n k count w lt aim ih = elim (Bool-cases (k == 0)) [
    | inl here ↦ elim (Bool-cases (leb count 1)) [
      | inl last ↦
          ap (handlers_at wheel_count n)
            (tick-now wheel_count slot th count w (now here) (ground arith))
          ∙ ground arith
      | inr more ↦
          ap (handlers_at wheel_count n)
            (tick-later wheel_count slot th count w (now here) (ground arith))
          ∙ ih (wheel_count - 1) (count - 1) (omega arith)
              (mod_add_full w.current_point wheel_count (omega arith) ∙ now here)
          ∙ ground (arith, one_round_less wheel_count count)
    ]
    | inr away ↦
        ap (handlers_at wheel_count n)
          (tick-other wheel_count slot th count w (slot_later k w (ground arith) lt aim))
        ∙ ih (k - 1) count (omega arith)
            (shift_k w.current_point k wheel_count (ground arith) ∙ aim)
        ∙ ground arith
  ]
    where
      now : (k == 0) ≡ true → w.current_point % wheel_count ≡ slot
      now h = slot_now k w (ground arith) aim

  Due-all :
      (n k count : ℕ) (w : TimingWheel A)
      → k < wheel_count
      → (w.current_point + k) % wheel_count ≡ slot
      → Due n k count w
  Due-all zero k count w lt aim = Due-zero k count w lt aim
  Due-all (suc n) k count w lt aim =
      Due-suc n k count w lt aim
        λ k' count' lt' aim'. Due-all n k' count' (tick wheel_count w) lt' (unfold tick in aim')

rounds_due :
    (q n r i : ℕ) → n * q + r ≡ i → r < n → r + n * (q - 1) ≡ (if ltb i n then i else i - n)
rounds_due zero n r i e lt = ground (arith, mul-zero n)
rounds_due (suc q) n r i e lt = ap (λ (t : ℕ). r + n * t) (suc_pred q) ∙ ground (arith, mul-suc n q)
  where
    suc_pred : (m : ℕ) → suc m - 1 ≡ m
    suc_pred m = omega arith

-- On a wheel of `wheel_count` slots, at whatever position and with whatever else registered: a
-- handler added with an interval is called exactly once, at tick `interval` (counted from 0) when
-- the interval is less than the slots, and at tick `interval - wheel_count`, a whole turn early,
-- when it is not; at every other tick the wheel calls what it would have called without it.
pub handlers_at-add :
    {A : Type 0} (wheel_count n interval : ℕ) (th : A) (w : TimingWheel A)
    → 0 < wheel_count
    → handlers_at wheel_count n (add wheel_count interval th w) ≡ (
        if n == (if ltb interval wheel_count then interval else interval - wheel_count)
        then th ∷ handlers_at wheel_count n w
        else handlers_at wheel_count n w)
unfolding add
handlers_at-add wheel_count n interval th w pos =
    (Due-all wheel_count ((interval + w.current_point) % wheel_count) th n (interval % wheel_count)
      (interval / wheel_count) w (omega arith) aim)
    ∙ ap
        (λ (d : ℕ).
          if n == d then th ∷ handlers_at wheel_count n w else handlers_at wheel_count n w)
        (rounds_due (interval / wheel_count) wheel_count (interval % wheel_count) interval
          (div-add-mod interval wheel_count) (mod-lt interval pos))
  where
    aim :
        (w.current_point + interval % wheel_count) % wheel_count
        ≡ (interval + w.current_point) % wheel_count
    aim =
        add-mod-mod w.current_point interval wheel_count
        ∙ ap (λ (m : ℕ). m % wheel_count) (omega arith)
