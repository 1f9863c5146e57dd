-- ===== src/Pbs/Blob/RoundTrip.antt =====
-- Encoding and decoding of unencrypted blobs undo each other.
use pbsgui.Base.{
  ◌+◌, ◌≤◌, ◌≡◌, refl, sym, ap, ◌∙◌, false, ◌++◌, length, drop, slice, ltb, list_eq, ok, arith,
  length-append, append_assoc, le→ltb, drop-append, slice-middle, ==_iff, HasLength, take-append,
}
use pbsgui.Base.Bytes.{Bytes, to_le, from_le-to_le, length-to_le}
use pbsgui.Pbs.Blob.{
  Codec, CodecLaws, framed, encode_uncompressed, frame_zstd, encode_compressed, encode_auto,
  zstd_decompress, decode_payload, decode, magic_uncompressed, magic_zstd, header_size,
}

module _ (c : Codec) (laws : CodecLaws c) where
  pub length-framed :
      (magic p : Bytes) → HasLength 8 magic → length (framed c magic p) ≡ 12 + length p
  length-framed magic p h = omega (
    arith,
    length-append magic (to_le 4 (c.crc32 p) ++ p),
    length-append (to_le 4 (c.crc32 p)) p,
    length-to_le 4 (c.crc32 p),
  )

  -- A framed payload passes the checks of `decode`.
  pub decode-framed :
      (magic p : Bytes) → HasLength 8 magic → decode c (framed c magic p) ≡ decode_payload c magic p
  unfolding decode
  decode-framed magic p h =
      let crc = to_le 4 (c.crc32 p) in
      let long : ltb (length (framed c magic p)) header_size ≡ false =
        le→ltb _ _ (omega (arith, length-framed magic p h)) in
      let front : slice 0 8 (framed c magic p) ≡ magic = take-append magic (crc ++ p) 8 h in
      let stored : slice 8 12 (framed c magic p) ≡ crc =
        slice-middle magic crc p 8 12 h (omega (arith, length-to_le 4 (c.crc32 p))) in
      let rest : drop header_size (framed c magic p) ≡ p =
        ap (drop 12) (sym (append_assoc magic crc p))
        ∙ drop-append (magic ++ crc) p 12
            (omega (arith, length-append magic crc, length-to_le 4 (c.crc32 p), h)) in
      rw (
        long,
        front,
        stored,
        rest,
        from_le-to_le 4 (c.crc32 p) (laws.crc32_range p),
        (==_iff _ _).1 refl,
      )

  -- An uncompressed blob decodes to its payload.
  pub decode-encode_uncompressed : (p : Bytes) → decode c (encode_uncompressed c p) ≡ ok p
  unfolding encode_uncompressed decode_payload list_eq
  decode-encode_uncompressed p = decode-framed magic_uncompressed p refl

  decode-frame_zstd : (p : Bytes) → decode c (frame_zstd c (c.zstd_compress p)) ≡ ok p
  unfolding frame_zstd decode_payload list_eq zstd_decompress
  decode-frame_zstd p =
      decode-framed magic_zstd (c.zstd_compress p) refl
      ∙ ground (arith, laws.zstd_decode-compress p)

  -- A payload that `encode_compressed` framed decodes to itself.
  pub decode-encode_compressed : (p : Bytes) → decode c (encode_compressed c p) ≡ ok p
  unfolding encode_compressed
  decode-encode_compressed p = decode-frame_zstd p

  -- Whether or not the payload shrinks, what `encode_auto` made decodes to it.
  pub decode-encode_auto : (p : Bytes) → decode c (encode_auto c p) ≡ ok p
  unfolding encode_auto
  decode-encode_auto p = ground (arith, decode-frame_zstd p, decode-encode_uncompressed p)

  -- Compression never makes a blob larger than the plain frame, twelve bytes over the payload.
  pub length-encode_auto : (p : Bytes) → length (encode_auto c p) ≤ 12 + length p
  unfolding encode_auto encode_uncompressed frame_zstd
  length-encode_auto p = ground (
    arith,
    length-framed magic_zstd (c.zstd_compress p) refl,
    length-framed magic_uncompressed p refl,
  )
