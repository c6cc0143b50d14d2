-- ===== src/Convert.antt =====
-- src/Util.cpp: the decimal digits of a number.
mod Defs
pub mod RoundTrip
mod Tests
unfoldable pub use Defs.*
