-- ===== src/Timer/Wheel.antt =====
-- src/module/timer.hpp: `TimingWheel<WheelCount, Tick>`.
-- The array of slots is a function on their indices, which are always taken `% WheelCount`. The
-- handlers of a tick are returned in the order in which they are called: a handler that registers
-- another one puts it at the front of a slot, where the iteration has already passed.
pub mod Expiry
use lemon_server.Common.{ℕ, zero, suc, ◌+◌, ◌-◌, ◌/◌, ◌%◌, List, [], ◌∷◌, leb, ◌==◌, if◌then◌else◌}

-- `TimeWork`. The counts start at 0 or above, and a work is erased when its count reaches 0 or
-- falls below, so a natural number holds them.
pub record TimeWork (A : Type 0) : Type 0 where
  pub count : ℕ
  pub handler : A

pub record TimingWheel (A : Type 0) : Type 0 where
  pub wheel : ℕ → List (TimeWork A)
  pub current_point : ℕ

abbrev pub update {ℓ} : {B : Type ℓ} → (ℕ → B) → ℕ → B → ℕ → B
update f k v j = if j == k then v else f j

module _ {A : Type 0} (wheel_count : ℕ) where
  -- `TaskList::add` at a slot: to the front.
  unfoldable pub task_add : ℕ → ℕ → A → TimingWheel A → TimingWheel A
  task_add slot count th w = record w {
    wheel = update w.wheel slot (record { count = count; handler = th } ∷ w.wheel slot);
  }

  unfoldable pub add : ℕ → A → TimingWheel A → TimingWheel A
  unfolding task_add
  add interval th w =
      task_add ((interval + w.current_point) % wheel_count) (interval / wheel_count) th w

  -- `timeWork`: the handlers called, and the works left. `--count <= 0` holds up to a count of 1.
  unfoldable pub called : List (TimeWork A) → List A
  called [] = []
  called (t ∷ ts) = let rest = called ts in if leb t.count 1 then t.handler ∷ rest else rest

  unfoldable pub left : List (TimeWork A) → List (TimeWork A)
  left [] = []
  left (t ∷ ts) =
      let rest = left ts in if leb t.count 1 then rest else record t { count = t.count - 1 } ∷ rest

  -- One round of `loop`, after its sleep: `m_wheel[m_currentPoint++ % size].timeWork()`.
  unfoldable pub tick_handlers : TimingWheel A → List A
  unfolding called
  tick_handlers w = called (w.wheel (w.current_point % wheel_count))

  unfoldable pub tick : TimingWheel A → TimingWheel A
  unfolding left
  tick w =
      let slot = w.current_point % wheel_count in
      record {
        wheel = update w.wheel slot (left (w.wheel slot));
        current_point = w.current_point + 1;
      }

  -- The handlers called at tick `n`, counted from 0, when nothing is registered in between.
  unfoldable pub handlers_at : ℕ → TimingWheel A → List A
  handlers_at zero w = tick_handlers w
  handlers_at (suc n) w = handlers_at n (tick w)
