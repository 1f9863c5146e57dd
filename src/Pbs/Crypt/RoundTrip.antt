-- ===== src/Pbs/Crypt/RoundTrip.antt =====
-- An encrypted blob decrypts to what was encrypted.
use pbsgui.Base.{
  ==_iff, Bool, Bool-cases, List, [], append-nil, arith, concat, drop, drop_slots, false,
  if◌then◌else◌, inl, inr, length, le→ltb, list_eq, ltb, ltb→lt, ok, refl, slice, slice_slot, some,
  true, ◌∙◌, ◌∷◌, ◌≡◌, ◌≤◌, ◌⊎◌,
}
use pbsgui.Base.Bytes.{Bytes, to_le, from_le-to_le, length-to_le}
use pbsgui.Pbs.Index.Buffer.{length-slots}
use pbsgui.Pbs.Blob.{Codec, CodecLaws, zstd_decompress, magic_encrypted_zstd, magic_encrypted}
use pbsgui.Pbs.Crypt.{
  Cipher, CipherLaws, CryptConfig, enc_header_size, encrypt_with_magic, is_compressed, unseal_blob,
  decrypt_blob, PbsResult, encrypt_blob, encrypt_compressed_blob,
}

-- The result is a blob under one of the two encrypted magics, and it decrypts to the plaintext.
abbrev pub Encrypts : Codec → Cipher → CryptConfig → Bytes → PbsResult Bytes → Type 0
Encrypts c a config plaintext r =
    (blob : Bytes) × (r ≡ ok blob)
    × ((slice 0 8 blob ≡ magic_encrypted) ⊎ (slice 0 8 blob ≡ magic_encrypted_zstd))
    × (8 ≤ length blob)
    × (decrypt_blob c a config blob ≡ ok plaintext)

module _ (c : Codec) (laws : CodecLaws c) (a : Cipher) (sound : CipherLaws a) (config : CryptConfig)
    (iv : Bytes) (key_size : length config.enc_key ≡ 32) (iv_size : length iv ≡ 16) where
  -- The five fields of an encrypted blob.
  abbrev sealed_slots : Bytes → Bytes → Bytes → List Bytes
  sealed_slots magic text tag = magic ∷ to_le 4 (c.crc32 text) ∷ iv ∷ tag ∷ text ∷ []

  -- A blob of the right shape passes the checks, and its parts reach the cipher.
  unseal_blob-slots :
      (magic text tag payload : Bytes) (compressed : Bool)
      → length magic ≡ 8
      → length tag ≡ 16
      → a.unseal config.enc_key iv text tag ≡ some payload
      → unseal_blob c a config (concat (sealed_slots magic text tag)) compressed
        ≡ (if compressed then zstd_decompress c payload else ok payload)
  unfolding unseal_blob
  unseal_blob-slots magic text tag payload compressed hm ht opens =
      let crc : Bytes = to_le 4 (c.crc32 text) in
      let lc : length crc ≡ 4 = length-to_le 4 (c.crc32 text) in
      let blob : Bytes = concat (sealed_slots magic text tag) in
      let stored : slice 8 12 blob ≡ crc =
        slice_slot (magic ∷ []) crc (iv ∷ tag ∷ text ∷ []) 8 12
          (omega (arith, length-slots (magic ∷ []))) (omega arith) in
      let vector : slice 12 28 blob ≡ iv =
        slice_slot (magic ∷ crc ∷ []) iv (tag ∷ text ∷ []) 12 28
          (omega (arith, length-slots (magic ∷ crc ∷ []))) (omega arith) in
      let mark : slice 28 44 blob ≡ tag =
        slice_slot (magic ∷ crc ∷ iv ∷ []) tag (text ∷ []) 28 44
          (omega (arith, length-slots (magic ∷ crc ∷ iv ∷ []))) (omega arith) in
      let rest : drop enc_header_size blob ≡ text =
        drop_slots (magic ∷ crc ∷ iv ∷ tag ∷ []) (text ∷ []) enc_header_size
          (omega (arith, length-slots (magic ∷ crc ∷ iv ∷ tag ∷ [])))
        ∙ append-nil text in
      rw (
        rest,
        stored,
        vector,
        mark,
        from_le-to_le 4 (c.crc32 text) (laws.crc32_range text),
        (==_iff _ _).1 refl,
        opens,
      )

  decrypt_blob-slots :
      (magic text tag payload : Bytes) (compressed : Bool)
      → length magic ≡ 8
      → length tag ≡ 16
      → is_compressed magic ≡ ok compressed
      → a.unseal config.enc_key iv text tag ≡ some payload
      → decrypt_blob c a config (concat (sealed_slots magic text tag))
        ≡ (if compressed then zstd_decompress c payload else ok payload)
  unfolding decrypt_blob
  decrypt_blob-slots magic text tag payload compressed hm ht known opens =
      let blob : Bytes = concat (sealed_slots magic text tag) in
      let long : ltb (length blob) enc_header_size ≡ false = le→ltb _ _ (
        omega (arith, length-slots (sealed_slots magic text tag), length-to_le 4 (c.crc32 text))) in
      let front : slice 0 8 blob ≡ magic =
        slice_slot [] magic (to_le 4 (c.crc32 text) ∷ iv ∷ tag ∷ text ∷ []) 0 8 refl
          (omega arith) in
      rw (long, front, known) (unseal_blob-slots magic text tag payload compressed hm ht opens)

  -- Sealing succeeds, and decryption inverts it.
  decrypt-encrypt_with_magic :
      (magic payload : Bytes) (compressed : Bool)
      → length magic ≡ 8
      → length payload ≤ sound.limit
      → is_compressed magic ≡ ok compressed
      → (blob : Bytes) × (encrypt_with_magic c a config (some iv) payload magic ≡ ok blob)
        × (slice 0 8 blob ≡ magic)
        × (8 ≤ length blob)
        × (decrypt_blob c a config blob
            ≡ (if compressed then zstd_decompress c payload else ok payload))
  unfolding encrypt_with_magic
  decrypt-encrypt_with_magic magic payload compressed hm small known =
      let (text, tag, seals, ht, opens) =
        sound.seals config.enc_key iv payload key_size iv_size small in
      let blob : Bytes = concat (sealed_slots magic text tag) in
      (
        blob,
        rw (seals, append-nil),
        slice_slot [] magic (to_le 4 (c.crc32 text) ∷ iv ∷ tag ∷ text ∷ []) 0 8 refl (omega arith),
        omega (arith, length-slots (sealed_slots magic text tag)),
        decrypt_blob-slots magic text tag payload compressed hm ht known opens,
      )

  -- Given an IV, encryption of a payload within the cipher's limit succeeds, and decryption gives
  -- the payload back.
  pub decrypt-encrypt_blob :
      (plaintext : Bytes)
      → length plaintext ≤ sound.limit
      → Encrypts c a config plaintext (encrypt_blob c a config (some iv) plaintext)
  unfolding encrypt_blob is_compressed list_eq
  decrypt-encrypt_blob plaintext small =
      let (blob, made, magic, long, opens) =
        decrypt-encrypt_with_magic magic_encrypted plaintext false refl small refl in
      (blob, made, inl magic, long, opens)

  Encrypts-compressed :
      (plaintext : Bytes)
      → length (c.zstd_compress plaintext) ≤ sound.limit
      → Encrypts c a config plaintext
          (encrypt_with_magic c a config (some iv) (c.zstd_compress plaintext) magic_encrypted_zstd)
  unfolding is_compressed list_eq zstd_decompress
  Encrypts-compressed plaintext small =
      let (blob, made, magic, long, opens) =
        decrypt-encrypt_with_magic magic_encrypted_zstd (c.zstd_compress plaintext) true refl small
          refl in
      (blob, made, inr magic, long, opens ∙ ground (arith, laws.zstd_decode-compress plaintext))

  -- So too with compression, whether or not it shrinks the payload.
  pub decrypt-encrypt_compressed_blob :
      (plaintext : Bytes)
      → length plaintext ≤ sound.limit
      → Encrypts c a config plaintext (encrypt_compressed_blob c a config (some iv) plaintext)
  unfolding encrypt_compressed_blob
  decrypt-encrypt_compressed_blob plaintext small =
      elim (Bool-cases (ltb (length (c.zstd_compress plaintext)) (length plaintext))) [
        | inl shrinks ↦
            rw shrinks (Encrypts-compressed plaintext (omega (arith, ltb→lt _ _ shrinks, small)))
        | inr grows ↦ rw grows (unfold encrypt_blob in decrypt-encrypt_blob plaintext small)
      ]
