-- ===== src/Server.antt =====
-- crates/eggwork-server/src/lib.rs: the node's request handling, above the execution store.
mod Tests
pub mod Routes
pub mod Events
pub mod Records
pub mod Admission
pub mod Recent
pub mod Telemetry
pub mod Queries
pub mod Control
pub mod Forward
