-- ===== src/Engine.antt =====
-- crates/pbsgui-engine: the backup engine.
pub mod Plan
pub mod Chain
pub mod Store
pub mod Protocol
pub mod Schedule
pub mod Backup
pub mod Ssrp
pub mod Discover
pub mod Metrics
mod Tests
mod DiscoverTests
mod MetricsTests
