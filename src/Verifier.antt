-- ===== src/Verifier.antt =====
-- The verifier of rust/sigv4-verifier/src/lib.rs: its configuration and `verify`.
mod Types
mod Compile
mod Defs
mod Handler
mod Checks
pub mod Limits
mod Accepts
mod Denials
pub mod Safety
pub mod Allowed
pub mod Caches
pub mod Paths
pub mod Stateless
pub mod History
pub mod Shared
pub mod SignedUri
pub mod Presigned
pub mod Configured
pub mod Isolation
pub mod Window
pub mod Binding
unfoldable pub use Types.*
unfoldable pub use Compile.*
unfoldable pub use Defs.*
unfoldable pub use Handler.*
