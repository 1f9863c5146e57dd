-- ===== src/Relay.antt =====
-- crates/pbsgui-engine/src/relay: the proxy and its agents on the SQL hosts.
pub mod Proto
pub mod Socket
pub mod Server
pub mod Agent
pub mod Whole
mod Messages
mod Tests
mod SessionTests
