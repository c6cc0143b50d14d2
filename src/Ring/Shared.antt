-- ===== src/Ring/Shared.antt =====
-- src/log/RingBuffer.h and src/log/RingBuffer.cpp: one thread that appends and one that retrieves,
-- with their accesses interleaved.
mod Defs
pub mod Moves
pub mod States
pub mod Lay
pub mod Writer
pub mod Reader
pub mod Stable
pub mod Streams
pub mod Apart
mod Tests
unfoldable pub use Defs.*
