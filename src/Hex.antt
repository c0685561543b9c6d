-- ===== src/Hex.antt =====
-- The byte classes and hex helpers of rust/sigv4-verifier/src/lib.rs, with their laws.
mod Defs
mod Laws
unfoldable pub use Defs.*
pub use Laws.*
