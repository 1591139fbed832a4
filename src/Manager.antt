-- ===== src/Manager.antt =====
-- The manager of a fleet (pkg/fleetmanager/manager.go): allocations, their cancellation, workers and
-- the calls of Nakama's FleetManager interface. A method takes the manager, the times that it reads
-- from the clock and the state, and returns the new state.
mod Users
mod Core
pub mod Instance
pub mod Listing
pub mod Assignment
mod Requests
pub mod Opening
pub mod Calls
pub mod Admin
unfoldable pub use Users.*
unfoldable pub use Core.*
unfoldable pub use Instance.*
unfoldable pub use Requests.*
