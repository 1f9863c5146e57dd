-- ===== src/Pbs/Session/Reader.antt =====
-- crates/pbs-client/src/session.rs: `ReaderClient`, which restores archives chunk by chunk.
pub mod Restore
use pbsgui.Base.{Bool, List, Option, Text, [], err, if◌then◌else◌, ok, take, ◌++◌, ◌>>=◌, ◌∷◌}
use pbsgui.Base.Bytes.{Bytes}
use pbsgui.Pbs.Error.{PbsResult, protocol, index_csum_mismatch, server_status}
use pbsgui.Pbs.Blob.{Codec}
use pbsgui.Pbs.Index.{Sha256}
use pbsgui.Pbs.Index.Fixed.{FixedIndex, parse as parse_fixed, verify_csum as verify_fixed}
use pbsgui.Pbs.Index.Dynamic.{
  DynamicIndex, digests, parse as parse_dynamic, verify_csum as verify_dynamic,
}
use pbsgui.Pbs.Crypt.{Cipher, CryptConfig}
use pbsgui.Pbs.Session.Chunk.{decode_blob, decode_and_verify_chunk}

-- A response: whether its status is a success, and its body.
pub record Response : Type 0 where
  pub is_success : Bool
  pub body : Bytes

unfoldable pub ensure_ok : Response → PbsResult (Unit {0})
ensure_ok r = if r.is_success then ok tt else err (protocol server_status)

-- The HTTP/2 connection of a reader session: what the server gives for a file and for a chunk.
pub record Connection : Type 0 where
  pub get_file : Text → PbsResult Response
  pub get_chunk : Bytes → PbsResult Response

unfoldable pub body_of : Response → PbsResult Bytes
body_of r = do checked ← ensure_ok r; ok r.body

module _ (n : Connection) where
  unfoldable pub download : Text → PbsResult Bytes
  download file_name = n.get_file file_name >>= body_of

  unfoldable pub download_chunk : Bytes → PbsResult Bytes
  download_chunk digest = n.get_chunk digest >>= body_of

  module _ (c : Codec) (a : Cipher) (h : Sha256) (crypt : Option CryptConfig) where
    unfoldable pub download_blob : Text → PbsResult Bytes
    download_blob file_name = do raw ← download file_name; decode_blob c a raw crypt

    -- The loop over the digests, with what is restored so far.
    unfoldable pub fetch_chunks : Bytes → List Bytes → PbsResult Bytes
    fetch_chunks image [] = ok image
    fetch_chunks image (digest ∷ rest) = do
      chunk_blob ← download_chunk digest
      chunk ← decode_and_verify_chunk c a h chunk_blob crypt digest
      fetch_chunks (image ++ chunk) rest

    unfoldable pub fixed_index : Text → PbsResult FixedIndex
    fixed_index archive_name = do
      index_bytes ← download archive_name
      fixed ← parse_fixed index_bytes
      if verify_fixed h fixed then ok fixed else err (protocol index_csum_mismatch)

    unfoldable pub restore_fixed_image : Text → PbsResult Bytes
    restore_fixed_image archive_name = do
      fixed ← fixed_index archive_name
      image ← fetch_chunks [] fixed.digests
      ok (take fixed.size image)

    unfoldable pub archive_index : Text → PbsResult DynamicIndex
    archive_index archive_name = do
      index_bytes ← download archive_name
      index ← parse_dynamic index_bytes
      if verify_dynamic h index then ok index else err (protocol index_csum_mismatch)

    unfoldable pub restore_dynamic_archive : Text → PbsResult Bytes
    restore_dynamic_archive archive_name = do
      index ← archive_index archive_name
      fetch_chunks [] (digests index)

    unfoldable pub archive_digests : Text → PbsResult (List Bytes)
    archive_digests archive_name = do index ← archive_index archive_name; ok (digests index)
