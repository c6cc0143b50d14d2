-- ===== src/Connection.antt =====
-- src/net/TCPConnection.h, TCPConnection.cpp, the send and recv of src/net/Socket.cpp, and the map
-- of connections of src/net/TCPServer.cpp.
mod Defs
mod Timers
pub mod Close
pub mod Write
pub mod Echo
pub mod Session
pub mod Open
pub mod Turns
pub mod Rows
mod Tests
unfoldable pub use Defs.*
