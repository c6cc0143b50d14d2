-- ===== src/Log.antt =====
-- src/log/LogStream.h, LogStream.cpp, Log.h and Log.cpp: a log line, and the logger that writes it
-- at once.
mod Defs
pub mod Stream
pub mod Lines
pub mod ToFile
mod Tests
unfoldable pub use Defs.*
