-- ===== src/Query.antt =====
-- The query string of rust/sigv4-verifier/src/lib.rs: the SigV4 parameters and the canonical query.
mod Defs
pub mod Order
pub mod Params
pub mod Laws
pub mod Written
pub mod Pieces
pub mod Fixpoint
pub mod Signed
pub mod Values
unfoldable pub use Defs.*
