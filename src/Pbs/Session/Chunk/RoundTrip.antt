-- ===== src/Pbs/Session/Chunk/RoundTrip.antt =====
-- A chunk that a backup uploads is the chunk that a restore gets, and nothing else passes.
use pbsgui.Base.{
  Bool, Bool-cases, Option, arith, bind-eq-ok, err, false, inl, inr, length, le→leb, list_eq,
  list_eq_iff, list_eq_refl, ltb, none, ok, ok-injective, refl, slice, some, true, ◌≡◌, ◌≤◌, ◌⊎◌,
}
use pbsgui.Base.Bytes.{Bytes}
use pbsgui.Pbs.Error.{PbsResult, protocol, no_encryption_key}
use pbsgui.Pbs.Blob.{
  Codec, CodecLaws, encode_auto, encode_uncompressed, frame_zstd, magic_encrypted,
  magic_encrypted_zstd,
}
use pbsgui.Pbs.Blob.RoundTrip.{decode-encode_auto, decode-encode_uncompressed}
use pbsgui.Pbs.Index.{Sha256}
use pbsgui.Pbs.Crypt.{Cipher, CipherLaws, CryptConfig}
use pbsgui.Pbs.Crypt.RoundTrip.{Encrypts, decrypt-encrypt_blob, decrypt-encrypt_compressed_blob}
use pbsgui.Pbs.Session.Chunk.{
  digest_of, encode_chunk, is_encrypted, decrypt_with, decode_blob, decode_and_verify_chunk,
}

-- The key is 32 bytes long, where there is one.
abbrev pub HasKey : Option CryptConfig → Type 0
HasKey none = Unit {0}
HasKey (some config) = length config.enc_key ≡ 32

encrypted_magic :
    (raw : Bytes)
    → (slice 0 8 raw ≡ magic_encrypted) ⊎ (slice 0 8 raw ≡ magic_encrypted_zstd)
    → 8 ≤ length raw
    → is_encrypted raw ≡ true
unfolding is_encrypted list_eq
encrypted_magic raw (inl m) long = rw (m, le→leb _ _ long)
encrypted_magic raw (inr m) long = rw (m, le→leb _ _ long)

plain_magic : (c : Codec) (p : Bytes) → is_encrypted (encode_auto c p) ≡ false
unfolding is_encrypted encode_auto encode_uncompressed frame_zstd list_eq
plain_magic c p = elim (Bool-cases (ltb (length (c.zstd_compress p)) (length p))) [
  | inl shrinks ↦ rw shrinks (ground arith)
  | inr grows ↦ rw grows (ground arith)
]

uncompressed_magic : (c : Codec) (p : Bytes) → is_encrypted (encode_uncompressed c p) ≡ false
unfolding is_encrypted encode_uncompressed list_eq
uncompressed_magic c p = ground arith

module _ (c : Codec) (a : Cipher) where
  -- A chunk that a restore accepts is what the blob holds, and it has the digest that it was asked
  -- for by.
  pub verified-digest :
      (h : Sha256) (raw expected data_bytes : Bytes) (crypt : Option CryptConfig)
      → decode_and_verify_chunk c a h raw crypt expected ≡ ok data_bytes
      → (digest_of h crypt data_bytes ≡ expected) × (decode_blob c a raw crypt ≡ ok data_bytes)
  unfolding decode_and_verify_chunk
  verified-digest h raw expected data_bytes crypt e =
      let (d, decoded, checked) = bind-eq-ok (decode_blob c a raw crypt) _ e in
      elim (Bool-cases (list_eq (digest_of h crypt d) expected)) [
        | inl same ↦
            let eq : d ≡ data_bytes = ok-injective (rw same at checked) in
            rw (← eq) ((list_eq_iff _ _).0 same, decoded)
        | inr other ↦ cc (rw other at checked)
      ]

  -- A decoded chunk passes the check against its own digest.
  verify_own :
      (h : Sha256) (raw data_bytes : Bytes) (crypt : Option CryptConfig)
      → decode_blob c a raw crypt ≡ ok data_bytes
      → decode_and_verify_chunk c a h raw crypt (digest_of h crypt data_bytes) ≡ ok data_bytes
  unfolding decode_and_verify_chunk
  verify_own h raw data_bytes crypt e = rw (e, list_eq_refl (digest_of h crypt data_bytes))

  -- An encrypted blob is refused where there is no key.
  pub decode_blob_needs_key :
      (raw : Bytes)
      → (slice 0 8 raw ≡ magic_encrypted) ⊎ (slice 0 8 raw ≡ magic_encrypted_zstd)
      → 8 ≤ length raw
      → decode_blob c a raw none ≡ err (protocol no_encryption_key)
  unfolding decode_blob decrypt_with
  decode_blob_needs_key raw m long = rw (encrypted_magic raw m long)

module _ (c : Codec) (laws : CodecLaws c) (a : Cipher) (sound : CipherLaws a) where
  encrypted_chunk :
      (config : CryptConfig) (data_bytes : Bytes) (r : PbsResult Bytes)
      → Encrypts c a config data_bytes r
      → (blob : Bytes) × (r ≡ ok blob) × (decode_blob c a blob (some config) ≡ ok data_bytes)
  unfolding decode_blob decrypt_with
  encrypted_chunk config data_bytes r (blob, made, magic, long, opens) =
      (blob, made, rw (encrypted_magic blob magic long) opens)

  decode-encode_chunk :
      (crypt : Option CryptConfig) (compress : Bool) (iv data_bytes : Bytes)
      → HasKey crypt
      → length iv ≡ 16
      → length data_bytes ≤ sound.limit
      → (blob : Bytes) × (encode_chunk c a crypt compress (some iv) data_bytes ≡ ok blob)
        × (decode_blob c a blob crypt ≡ ok data_bytes)
  unfolding encode_chunk decode_blob
  decode-encode_chunk (some config) true iv data_bytes key vector small =
      encrypted_chunk config data_bytes _
        (decrypt-encrypt_compressed_blob c laws a sound config iv key vector data_bytes small)
  decode-encode_chunk (some config) false iv data_bytes key vector small =
      encrypted_chunk config data_bytes _
        (decrypt-encrypt_blob c laws a sound config iv key vector data_bytes small)
  decode-encode_chunk none true iv data_bytes key vector small = (
    encode_auto c data_bytes,
    refl,
    rw (plain_magic c data_bytes) (decode-encode_auto c laws data_bytes),
  )
  decode-encode_chunk none false iv data_bytes key vector small = (
    encode_uncompressed c data_bytes,
    refl,
    rw (uncompressed_magic c data_bytes) (decode-encode_uncompressed c laws data_bytes),
  )

  -- In all four modes (encrypted or not, compressed or not) a chunk within the cipher's limit is
  -- encoded, given an IV, and the restore that asks for it by its digest gets the chunk back.
  pub restore-encode_chunk :
      (h : Sha256) (crypt : Option CryptConfig) (compress : Bool) (iv data_bytes : Bytes)
      → HasKey crypt
      → length iv ≡ 16
      → length data_bytes ≤ sound.limit
      → (blob : Bytes) × (encode_chunk c a crypt compress (some iv) data_bytes ≡ ok blob)
        × (decode_and_verify_chunk c a h blob crypt (digest_of h crypt data_bytes) ≡ ok data_bytes)
  restore-encode_chunk h crypt compress iv data_bytes key vector small =
      let (blob, made, decoded) =
        decode-encode_chunk crypt compress iv data_bytes key vector small in
      (blob, made, verify_own c a h blob data_bytes crypt decoded)
