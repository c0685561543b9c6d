-- ===== src/Text.antt =====
-- What the crates use of the standard library's slices and strings, over bytes.
mod Defs
pub mod Split
pub mod Joined
pub mod Cuts
pub mod Utf8
pub mod Trim
pub mod Decimal
pub mod Printing
pub mod Lossy
unfoldable pub use Defs.*
