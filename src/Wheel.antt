-- ===== src/Wheel.antt =====
-- src/reactor/Timer.h and src/reactor/Timer.cpp: the timing wheel of an event loop.
mod Defs
pub mod Visit
pub mod Loop
pub mod Rule
pub mod Ready
pub mod Due
pub mod Early
pub mod Fires
pub mod Kind
pub mod Turn
pub mod DueNow
pub mod Bag
pub mod Sole
mod Tests
unfoldable pub use Defs.*
