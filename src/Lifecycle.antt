-- ===== src/Lifecycle.antt =====
-- The controller (pkg/fleetmanager/lifecycle.go): the lease, the transaction of a tick and the
-- transactions around each call of the provider.
mod Lease
mod Watch
mod Placement
mod Scaling
pub mod Choosing
mod Tick
pub mod Due
pub mod Callbacks
pub mod Notify
unfoldable pub use Lease.*
unfoldable pub use Watch.*
unfoldable pub use Placement.*
unfoldable pub use Scaling.*
unfoldable pub use Tick.*
