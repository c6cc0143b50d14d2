-- ===== src/Blocking.antt =====
-- src/BlockingQueue.h and BlockingQueue.cpp: a queue whose readers wait.
mod Defs
pub mod Served
mod Tests
unfoldable pub use Defs.*
