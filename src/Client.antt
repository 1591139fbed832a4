-- ===== src/Client.antt =====
-- The client of the provider (internal/playflow/client.go). The exchange over HTTP, the JSON decoder and
-- the clock are arguments: what the transport came back with, and what the decoder makes of a body.
mod Errors
mod Requests
mod Operations
mod Listing
pub mod Opening
pub mod Creation
pub mod Snapshot
unfoldable pub use Errors.*
unfoldable pub use Requests.*
unfoldable pub use Operations.*
unfoldable pub use Listing.*
