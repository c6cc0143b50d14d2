-- ===== src/Buffer.antt =====
-- src/Buffer.h and src/Buffer.cpp: the linear byte buffer under every connection and log line. A
-- pointer is its offset from `m_data`; `size` is `m_end - m_data`. An access outside the allocated
-- block is a fault, `none`.
mod Defs
pub mod Valid
pub mod Stream
mod Tests
unfoldable pub use Defs.*
