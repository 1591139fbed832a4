-- ===== src/Config.antt =====
-- The configuration of a fleet (pkg/fleetmanager/config.go): the record, what is checked of it, and how
-- it is read from the environment of the process.
mod Settings
pub mod Environment
pub mod Validate
pub mod Limits
unfoldable pub use Settings.*
