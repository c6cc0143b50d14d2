-- ===== src/Async.antt =====
-- src/log/Log.h and Log.cpp: the class AsyncLogger.
mod Defs
pub mod Drain
pub mod Turns
pub mod Resend
pub mod Through
mod Tests
unfoldable pub use Defs.*
