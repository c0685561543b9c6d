-- ===== src/Signing.antt =====
-- Signing keys and signatures of rust/sigv4-verifier/src/lib.rs.
mod Defs
mod Entries
pub mod Signatures
pub mod Threads
pub mod Eviction
pub mod Locks
unfoldable pub use Defs.*
