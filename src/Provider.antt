-- ===== src/Provider.antt =====
-- The calls of the provider and the transactions around them (pkg/fleetmanager/lifecycle.go). What
-- the provider answers is an argument: the provider is not modelled here.
mod Instances
mod Launch
pub mod Request
mod Poll
mod Stop
pub mod Safety
pub mod Exclusion
unfoldable pub use Instances.*
unfoldable pub use Launch.*
unfoldable pub use Poll.*
unfoldable pub use Stop.*
