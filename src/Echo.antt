-- ===== src/Echo.antt =====
-- example/EchoServer.h: the echo server, with the idle connections of its loops.
mod Defs
pub mod Loops
pub mod Clock
pub mod Timeout
pub mod Start
mod Tests
unfoldable pub use Defs.*
