-- ===== src/Files.antt =====
-- src/log/FileUtil.h, FileUtil.cpp, LogFile.h, LogFile.cpp and Appender.h: log files and their
-- change.
mod Defs
mod Disk
pub mod Rotate
mod Tests
unfoldable pub use Defs.*
