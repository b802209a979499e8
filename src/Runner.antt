-- ===== src/Runner.antt =====
-- crates/eggwork-runner/src/lib.rs: the command runner's own logic, around the child process.
mod Tests
pub mod Capture
pub mod Setup
pub mod Report
pub mod Request
