-- ===== src/Scope.antt =====
-- The credential scope of rust/sigv4-verifier/src/lib.rs.
mod Defs
pub mod Laws
unfoldable pub use Defs.*
