-- ===== src/Core.antt =====
-- crates/pbsgui-core: what the engines share.
pub mod Signed
