-- ===== src/Pbs/Error.antt =====
-- crates/pbs-client/src/error.rs. A message is the reason that it gives; its text is left out.
use pbsgui.Base.{Result}

-- The reasons that the client gives in a `PbsError::Protocol`.
pub data Reason : Type 0 where
  blob_too_short blob_crc_mismatch blob_is_encrypted unknown_blob_magic zstd_failed : Reason
  index_too_short bad_index_magic index_body_not_whole index_csum_mismatch : Reason
  encrypted_blob_too_short not_an_encrypted_blob encrypted_crc_mismatch : Reason
  no_randomness encryption_failed decryption_failed no_encryption_key chunk_digest_mismatch : Reason
  server_status invalid_response no_wid encoding_failed no_host : Reason

pub data PbsError : Type 0 where
  invalid_repository : PbsError
  auth : PbsError
  fingerprint_mismatch : PbsError
  protocol : Reason → PbsError
  io : PbsError

-- `crate::error::Result`
abbrev pub PbsResult {ℓ} : Type ℓ → Type ℓ
PbsResult A = Result PbsError A
