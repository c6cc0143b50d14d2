-- ===== src/Server.antt =====
-- src/net/Acceptor.cpp and src/net/TCPServer.cpp: the way of a new connection to its loop.
mod Defs
pub mod Spread
mod Tests
unfoldable pub use Defs.*
