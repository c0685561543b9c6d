-- ===== src/Config.antt =====
-- The directives of rust/module-config/src/lib.rs.
mod Defs
mod Directive
mod Secret
pub mod Strict
pub mod Closed
pub mod Durations
pub mod UnitTests
unfoldable pub use Defs.*
unfoldable pub use Directive.*
unfoldable pub use Secret.*
