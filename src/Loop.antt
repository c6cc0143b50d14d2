-- ===== src/Loop.antt =====
-- src/reactor/EventLoop.h, EventLoop.cpp, EPollPoller.cpp: the loop of one thread and its poller.
mod Defs
pub mod Deferred
pub mod Wakeup
mod Tests
unfoldable pub use Defs.*
