-- ===== src/Timer/Tests.antt =====
-- A handler on a wheel of ten slots.
use lemon_server.Common.{ℕ, ◌≡◌, [], ◌∷◌, arith}
use lemon_server.Timer.Wheel.{TimingWheel, add, handlers_at}
use lemon_server.Timer.Wheel.Expiry.{handlers_at-add}

abbrev turning : TimingWheel ℕ
turning = record { wheel = λ j. []; current_point = 8 }

handlers_at-add_example : handlers_at 10 2 (add 10 12 77 turning) ≡ 77 ∷ handlers_at 10 2 turning
handlers_at-add_example = handlers_at-add 10 2 12 77 turning (omega arith)
