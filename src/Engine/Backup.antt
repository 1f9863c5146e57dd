-- ===== src/Engine/Backup.antt =====
-- crates/pbsgui-engine/src/backup.rs: the runs of jobs.
pub mod Groups
pub mod Runs
pub mod Sql
pub mod Run
mod Tests
