-- ===== src/Pbs/Manifest.antt =====
-- crates/pbs-client/src/manifest.rs: the list of a snapshot's archives.
use pbsgui.Base.{Bool, List, Text, if◌then◌else◌, ℕ}
use pbsgui.Base.Bytes.{Bytes}

pub data CryptMode : Type 0 where
  unencrypted encrypted : CryptMode

-- `csum` is kept as bytes; the crate hex prints it.
pub record FileEntry : Type 0 where
  pub filename : Text
  pub crypt_mode : CryptMode
  pub size : ℕ
  pub csum : Bytes

abbrev pub new_entry : Text → ℕ → Bytes → FileEntry
new_entry filename size index_csum = record {
  filename = filename;
  crypt_mode = unencrypted;
  size = size;
  csum = index_csum;
}

abbrev pub fixed_image : Text → ℕ → Bytes → FileEntry
fixed_image filename size index_csum = new_entry filename size index_csum

abbrev pub with_crypt : Text → ℕ → Bytes → Bool → FileEntry
with_crypt filename size index_csum is_encrypted = record {
  filename = filename;
  crypt_mode = if is_encrypted then encrypted else unencrypted;
  size = size;
  csum = index_csum;
}

-- `unprotected` is always `{}`.
pub record BackupManifest : Type 0 where
  pub backup_type : Text
  pub backup_id : Text
  pub backup_time : ℕ
  pub files : List FileEntry
