-- ===== src/Thread.antt =====
-- src/-Thread.h: a thread that is started and joined once.
mod Defs
pub mod Life
mod Tests
unfoldable pub use Defs.*
