-- ===== src/Pool.antt =====
-- src/reactor/EventLoopThreadPool.h and EventLoopThreadPool.cpp: how loops are handed out.
mod Defs
pub mod Rounds
mod Tests
unfoldable pub use Defs.*
