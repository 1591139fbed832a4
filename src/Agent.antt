-- ===== src/Agent.antt =====
-- The agent of a game server reports to the controller (pkg/fleetmanager/http.go): it is let in
-- once, and then sends heartbeats with its rooms and the results of its commands.
mod Reports
mod Rooms
mod Results
mod Heartbeat
pub mod Routes
mod Spares
mod Heard
pub mod Replay
unfoldable pub use Reports.*
unfoldable pub use Rooms.*
unfoldable pub use Results.*
unfoldable pub use Heartbeat.*
