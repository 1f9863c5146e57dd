-- ===== src/Pbs/Crypt.antt =====
-- crates/pbs-client/src/crypt.rs: client-side encryption of blobs.
pub mod RoundTrip
use pbsgui.Base.{
  Bool, Option, [], drop, err, false, if◌then◌else◌, length, list_eq, ltb, ok, ok_or, slice, some,
  true, ℕ, ◌++◌, ◌+◌, ◌==◌, ◌>>=◌, ◌∷◌, ◌≡◌, ◌≤◌,
}
use pbsgui.Base.Bytes.{Bytes, to_le, from_le}
use pbsgui.Pbs.Error.{
  PbsResult, protocol, encrypted_blob_too_short, not_an_encrypted_blob, encrypted_crc_mismatch,
  no_randomness, encryption_failed, decryption_failed,
}
use pbsgui.Pbs.Blob.{Codec, zstd_decompress, magic_encrypted, magic_encrypted_zstd}
use pbsgui.Pbs.Index.{Sha256}

-- The crates aes-gcm and pbkdf2. Sealing gives the ciphertext and the tag; the associated data is
-- empty.
pub record Cipher : Type 0 where
  pub seal : Bytes → Bytes → Bytes → Option (Bytes × Bytes)
  pub unseal : Bytes → Bytes → Bytes → Bytes → Option Bytes
  pub derive_id_key : Bytes → Bytes

-- A payload below the cipher's limit is sealed under a key of 32 bytes and an IV of 16; the tag has
-- 16 bytes, and what was sealed unseals to itself.
pub record CipherLaws (a : Cipher) : Type 0 where
  pub limit : ℕ
  pub seals :
      (key iv payload : Bytes)
      → length key ≡ 32
      → length iv ≡ 16
      → length payload ≤ limit
      → (text : Bytes) × (tag : Bytes) × (a.seal key iv payload ≡ some (text, tag))
        × (length tag ≡ 16)
        × (a.unseal key iv text tag ≡ some payload)

-- `magic[8] | crc[4] | iv[16] | tag[16]`
abbrev pub enc_header_size : ℕ
enc_header_size = 8 + 4 + 16 + 16

pub record CryptConfig : Type 0 where
  pub enc_key : Bytes
  pub id_key : Bytes

unfoldable pub new : Cipher → Bytes → CryptConfig
new a enc_key = record { enc_key = enc_key; id_key = a.derive_id_key enc_key }

-- The keyed digest: the key comes behind the data.
unfoldable pub compute_digest : Sha256 → CryptConfig → Bytes → Bytes
compute_digest h config data_bytes = h.digest (data_bytes ++ config.id_key)

abbrev pub fingerprint_input : Bytes
fingerprint_input =
    110 ∷ 208 ∷ 239 ∷ 119 ∷ 71 ∷ 31 ∷ 255 ∷ 77 ∷ 85 ∷ 199 ∷ 168 ∷ 254 ∷ 74 ∷ 157 ∷ 182 ∷ 33 ∷ 97
    ∷ 64 ∷ 127 ∷ 19 ∷ 76 ∷ 114 ∷ 93 ∷ 223 ∷ 48 ∷ 153 ∷ 45 ∷ 37 ∷ 236 ∷ 69 ∷ 237 ∷ 38 ∷ []

unfoldable pub fingerprint : Sha256 → CryptConfig → Bytes
unfolding compute_digest
fingerprint h config = compute_digest h config fingerprint_input

-- Whether the blob's magic says that it is compressed.
unfoldable pub is_compressed : Bytes → PbsResult Bool
is_compressed magic =
    if list_eq magic magic_encrypted
    then ok false
    else if list_eq magic magic_encrypted_zstd
    then ok true
    else err (protocol not_an_encrypted_blob)

module _ (c : Codec) (a : Cipher) (config : CryptConfig) where
  -- `random` is what `getrandom` gave for the IV, if it gave anything.
  unfoldable pub encrypt_with_magic : Option Bytes → Bytes → Bytes → PbsResult Bytes
  encrypt_with_magic random payload magic = do
    iv ← ok_or random (protocol no_randomness)
    (text, tag) ← ok_or (a.seal config.enc_key iv payload) (protocol encryption_failed)
    ok (magic ++ (to_le 4 (c.crc32 text) ++ (iv ++ (tag ++ text))))

  unfoldable pub encrypt_blob : Option Bytes → Bytes → PbsResult Bytes
  encrypt_blob random plaintext = encrypt_with_magic random plaintext magic_encrypted

  unfoldable pub encrypt_compressed_blob : Option Bytes → Bytes → PbsResult Bytes
  encrypt_compressed_blob random plaintext =
      let compressed = c.zstd_compress plaintext in
      if ltb (length compressed) (length plaintext)
      then encrypt_with_magic random compressed magic_encrypted_zstd
      else encrypt_with_magic random plaintext magic_encrypted

  -- The checksum, the cipher and the decompression, behind the check of the magic.
  unfoldable pub unseal_blob : Bytes → Bool → PbsResult Bytes
  unseal_blob blob compressed =
      let crc_stored = from_le (slice 8 12 blob) in
      let iv = slice 12 28 blob in
      let tag = slice 28 44 blob in
      let ciphertext = drop enc_header_size blob in
      if c.crc32 ciphertext == crc_stored
      then (do
        buffer ← ok_or (a.unseal config.enc_key iv ciphertext tag) (protocol decryption_failed)
        if compressed then zstd_decompress c buffer else ok buffer)
      else err (protocol encrypted_crc_mismatch)

  unfoldable pub decrypt_blob : Bytes → PbsResult Bytes
  decrypt_blob blob =
      if ltb (length blob) enc_header_size
      then err (protocol encrypted_blob_too_short)
      else (do compressed ← is_compressed (slice 0 8 blob); unseal_blob blob compressed)
