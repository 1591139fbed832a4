-- ===== src/State.antt =====
-- The control-plane state of a fleet (internal/state/state.go): what is stored, the tests on phases,
-- and the transactional store. Times are Unix seconds and counters are numbers, none near 2 ^ 63.
mod Types
pub mod Store
pub mod Postgres
unfoldable pub use Types.*
