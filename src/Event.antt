-- ===== src/Event.antt =====
-- src/reactor/Event.h and src/reactor/Event.cpp: the events of one descriptor and its callbacks.
mod Defs
pub mod Dispatch
mod Tests
unfoldable pub use Defs.*
