-- ===== src/Date.antt =====
-- Dates of rust/sigv4-verifier/src/lib.rs.
mod Defs
pub mod Civil
pub mod Parse
pub mod Digits
pub mod Accepted
unfoldable pub use Defs.*
