-- ===== src/Fuzz.antt =====
-- The fuzz targets of rust/sigv4-verifier/fuzz.
mod Defs
pub mod Passes
unfoldable pub use Defs.*
