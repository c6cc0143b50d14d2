-- ===== src/Running.antt =====
-- src/reactor/EventLoop.cpp (loop) and EventLoopThread.cpp: a loop from its start to its end.
mod Defs
pub mod Steps
pub mod Ends
mod Tests
unfoldable pub use Defs.*
