-- ===== src/Circular.antt =====
-- src/log/-CircularBuffer.h and -CircularBuffer.cpp: a bounded queue of buffers in an array.
mod Defs
pub mod Items
pub mod Refine
pub mod Waits
mod Tests
unfoldable pub use Defs.*
