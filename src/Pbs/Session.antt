-- ===== src/Pbs/Session.antt =====
-- crates/pbs-client/src/session.rs: backup and restore sessions.
pub mod Chunk
pub mod Reader
pub mod Writer
pub mod Dynamic
pub mod Pipeline
