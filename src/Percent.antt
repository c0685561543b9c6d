-- ===== src/Percent.antt =====
-- Percent-decoding and the canonical re-encoding of query components
-- (rust/sigv4-verifier/src/lib.rs), with the facts that the other components use.
mod Defs
pub mod Decode
pub mod Component
unfoldable pub use Defs.*
