-- ===== src/Client.antt =====
-- src/net/TCPClient.h: a client's connections.
mod Defs
pub mod Stale
mod Tests
unfoldable pub use Defs.*
