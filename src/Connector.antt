-- ===== src/Connector.antt =====
-- src/net/Connector.h and src/net/Connector.cpp: a connection to a server that is tried again.
mod Defs
pub mod Attempts
mod Tests
unfoldable pub use Defs.*
