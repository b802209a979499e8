-- ===== src/Client.antt =====
-- crates/eggwork-client/src/lib.rs: the client's side of the protocol.
mod Tests
pub mod Lines
