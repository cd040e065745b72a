-- ===== src/Timer.antt =====
-- src/module/timer.hpp and timer.cpp.
pub mod Wheel
mod Tests
