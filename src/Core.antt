-- ===== src/Core.antt =====
-- crates/eggwork-core/src/lib.rs: the bounded, protocol-neutral domain types and their validators.
pub mod Error
pub mod Limits
pub mod Id
pub mod RelativePath
pub mod Environment
pub mod Resources
pub mod Command
pub mod Workspace
pub mod Execution
pub mod Telemetry
pub mod Digest
mod Tests
