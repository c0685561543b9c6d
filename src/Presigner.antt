-- ===== src/Presigner.antt =====
-- The client's side: the presigner that the tests of rust/sigv4-verifier sign their requests with.
mod Defs
pub mod Canonical
pub mod Parts
pub mod Query
pub mod Grantable
pub mod Unsigned
pub mod Accepted
unfoldable pub use Defs.*
