-- ===== src/SysTimer.antt =====
-- src/reactor/SystemTimer.h and SystemTimer.cpp: the timer that drives a loop's wheel.
mod Defs
pub mod Interval
mod Tests
unfoldable pub use Defs.*
