-- ===== src/Evolution.antt =====
-- How allocations evolve: the diagram of their phases, what no transaction changes, and that every
-- transaction keeps to it.
pub mod Phases
pub mod Steps
pub mod Loops
pub mod Waiting
pub mod Tick
pub mod Scaling
pub mod Agent
pub mod Results
pub mod Heartbeat
pub mod Provider
pub mod Calls
