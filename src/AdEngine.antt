-- ===== src/AdEngine.antt =====
-- crates/pbsgui-ad-engine: the Active Directory engine.
pub mod Matchspec
mod Tests
