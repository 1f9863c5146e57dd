-- ===== src/Pbs/Index.antt =====
-- crates/pbs-client/src/index.rs: the fixed and the dynamic index file.
pub mod Buffer
pub mod Fixed
pub mod Dynamic
use pbsgui.Base.{copy_at, length, ℕ, ◌*◌, ◌≡◌}
use pbsgui.Base.Bytes.{Bytes, to_le}

-- The crate sha2. A hasher that is fed piece by piece gives the digest of the concatenation.
pub record Sha256 : Type 0 where
  pub digest : Bytes → Bytes

pub record Sha256Laws (h : Sha256) : Type 0 where
  pub digest_size : (b : Bytes) → length (h.digest b) ≡ 32

abbrev pub header_len : ℕ
header_len = 4096

abbrev pub digest_len : ℕ
digest_len = 32

-- 4 MiB, the chunk size that the server expects of an image.
abbrev pub default_chunk_size : ℕ
default_chunk_size = 4096 * 1024

-- The digest of a chunk's plaintext.
unfoldable pub chunk_digest : Sha256 → Bytes → Bytes
chunk_digest h data_bytes = h.digest data_bytes

-- The first four fields, which `serialize` of both index types writes in the same way.
unfoldable pub write_header : Bytes → Bytes → Bytes → ℕ → Bytes → Bytes
write_header out magic uuid ctime csum =
    copy_at (copy_at (copy_at (copy_at out 0 magic) 8 uuid) 24 (to_le 8 ctime)) 32 csum
