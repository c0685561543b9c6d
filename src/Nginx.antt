-- ===== src/Nginx.antt =====
-- The NGINX module of rust/nginx-module/src/lib.rs. What the crate `ngx` supplies is an argument:
-- the configurations it looks up, whether an allocation succeeds, the clock.
mod Conf
mod Directives
mod Init
mod Access
mod Variables
mod Enabling
pub mod Arity
pub mod Loading
pub mod Serving
pub mod Clients
pub mod Observed
pub mod Workers
pub mod Latency
unfoldable pub use Conf.*
unfoldable pub use Directives.*
unfoldable pub use Init.*
unfoldable pub use Access.*
unfoldable pub use Variables.*
