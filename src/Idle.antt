-- ===== src/Idle.antt =====
-- src/net/IdleConnections.h, IdleConnections.cpp and its use in example/EchoServer.h: connections
-- that are shut down when nothing comes from them.
mod Defs
pub mod Expiry
mod Tests
unfoldable pub use Defs.*
