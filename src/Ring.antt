-- ===== src/Ring.antt =====
-- src/log/RingBuffer.h and src/log/RingBuffer.cpp: the ring between a logging thread and the thread
-- of AsyncLogger.
mod Defs
pub mod Valid
pub mod Append
pub mod Wrap
pub mod Retrive
pub mod Stream
pub mod Shared
mod Tests
unfoldable pub use Defs.*
