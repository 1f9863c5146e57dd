-- ===== src/Stream.antt =====
-- The byte streams between a producer thread and the uploader: crates/pbsgui-engine/src/archive.rs and sql/vdi.rs, and
-- crates/pbsgui-ad-engine/src/stream.rs.
pub mod Reader
pub mod Writer
pub mod Chunks
pub mod Pipe
pub mod Ended
mod Tests
use pbsgui.Base.{Result}

pub data IoError : Type 0 where
  -- `BrokenPipe`, `Error::other` and `UnexpectedEof`
  broken_pipe other unexpected_eof : IoError
  -- `InvalidInput` and `InvalidData`
  invalid_input invalid_data : IoError

abbrev pub IoResult {ℓ} : Type ℓ → Type ℓ
IoResult A = Result IoError A
