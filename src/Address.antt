-- ===== src/Address.antt =====
-- src/net/InetAddress.h and src/net/InetAddress.cpp: the address of a socket.
mod Defs
pub mod Fields
pub mod Equal
pub mod Text
pub mod Hash
mod Tests
unfoldable pub use Defs.*
