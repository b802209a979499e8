-- ===== src/Store.antt =====
-- crates/eggwork-server/src/store.rs: the durable execution store. A database is its three tables;
-- a method that writes returns the new database, and the old one is kept where the method fails or
-- rolls back. The clock is an argument.
pub mod Tables
pub mod Run
pub mod Trim
pub mod Journal
pub mod Leases
pub mod Reserve
pub mod Reads
pub mod Metrics
pub mod History
mod Tests
