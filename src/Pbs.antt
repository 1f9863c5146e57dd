-- ===== src/Pbs.antt =====
-- crates/pbs-client: the client of Proxmox Backup Server.
pub mod Error
pub mod Blob
pub mod Index
pub mod Crypt
pub mod Manifest
pub mod Repository
pub mod Session
mod Tests
mod SessionTests
mod DynamicTests
