-- ===== src/System.antt =====
-- The fleet as a whole: every transaction that a process can make, in any order. Each event names
-- the manager that makes it, so a history may mix several processes, and an answer of the
-- provider may come late.
pub mod Events
pub mod History
pub mod Requests
pub mod Reachable
pub mod Replay
pub mod Tests
unfoldable pub use Events.*
