-- ===== src/Uri.antt =====
-- The request URI of rust/sigv4-verifier/src/lib.rs: splitting, path validation and the canonical
-- path.
mod Defs
pub mod Segments
pub mod Canonical
pub mod Decoding
pub mod Safety
unfoldable pub use Defs.*
