-- ===== src/Pbs/Session/Chunk.antt =====
-- crates/pbs-client/src/session.rs: how one chunk is encoded for upload, and decoded and verified
-- on restore.
pub mod RoundTrip
use pbsgui.Base.{
  Bool, Option, err, false, if◌then◌else◌, leb, length, list_eq, none, ok, slice, some, true, ◌&&◌,
  ◌>>=◌, ◌||◌,
}
use pbsgui.Base.Bytes.{Bytes}
use pbsgui.Pbs.Error.{PbsResult, protocol, no_encryption_key, chunk_digest_mismatch}
use pbsgui.Pbs.Blob.{
  Codec, encode_auto, encode_uncompressed, decode, magic_encrypted, magic_encrypted_zstd,
}
use pbsgui.Pbs.Index.{Sha256, chunk_digest}
use pbsgui.Pbs.Crypt.{
  Cipher, CryptConfig, compute_digest, encrypt_blob, encrypt_compressed_blob, decrypt_blob,
}

-- The digest of a chunk: keyed where the backup is encrypted.
unfoldable pub digest_of : Sha256 → Option CryptConfig → Bytes → Bytes
digest_of h none data_bytes = chunk_digest h data_bytes
digest_of h (some config) data_bytes = compute_digest h config data_bytes

-- The test at the head of `decode_blob`.
unfoldable pub is_encrypted : Bytes → Bool
is_encrypted raw =
    leb 8 (length raw)
    && (list_eq (slice 0 8 raw) magic_encrypted || list_eq (slice 0 8 raw) magic_encrypted_zstd)

module _ (c : Codec) (a : Cipher) where
  -- The `match (&crypt, compress)` of an upload task; `random` is the outcome of `getrandom`.
  unfoldable pub encode_chunk : Option CryptConfig → Bool → Option Bytes → Bytes → PbsResult Bytes
  encode_chunk (some config) true random data_bytes =
      encrypt_compressed_blob c a config random data_bytes
  encode_chunk (some config) false random data_bytes = encrypt_blob c a config random data_bytes
  encode_chunk none true random data_bytes = ok (encode_auto c data_bytes)
  encode_chunk none false random data_bytes = ok (encode_uncompressed c data_bytes)

  unfoldable pub decrypt_with : Option CryptConfig → Bytes → PbsResult Bytes
  decrypt_with none raw = err (protocol no_encryption_key)
  decrypt_with (some config) raw = decrypt_blob c a config raw

  unfoldable pub decode_blob : Bytes → Option CryptConfig → PbsResult Bytes
  decode_blob raw crypt = if is_encrypted raw then decrypt_with crypt raw else decode c raw

  unfoldable pub decode_and_verify_chunk :
      Sha256 → Bytes → Option CryptConfig → Bytes → PbsResult Bytes
  decode_and_verify_chunk h raw crypt expected = do
    data_bytes ← decode_blob raw crypt
    if list_eq (digest_of h crypt data_bytes) expected
        then ok data_bytes
        else err (protocol chunk_digest_mismatch)
