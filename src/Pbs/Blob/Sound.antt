-- ===== src/Pbs/Blob/Sound.antt =====
-- What `decode` accepts.
use pbsgui.Base.{
  All, All-drop, All-take, ap, ap₂, arith, drop, drop-drop, inl, inr, length, length-slice,
  list_eq_iff, ok, slice, some, sym, take, take-append-drop, ◌++◌, ◌∙◌, ◌≡◌, ◌≤◌, ◌⊎◌,
}
use pbsgui.Base.Bytes.{Bytes, IsByte, to_le, from_le, to_le-from_le}
use pbsgui.Pbs.Blob.{
  Codec, framed, encode_uncompressed, frame_zstd, zstd_decompress, decode_payload, decode,
  magic_uncompressed, magic_zstd, header_size,
}

-- The three parts of a blob that is long enough.
blob_parts : (blob : Bytes) → blob ≡ slice 0 8 blob ++ (slice 8 12 blob ++ drop header_size blob)
blob_parts blob =
    sym (take-append-drop 8 blob)
    ∙ ap (λ r. take 8 blob ++ r)
        (sym (take-append-drop 4 (drop 8 blob))
          ∙ ap (λ r. take 4 (drop 8 blob) ++ r) (drop-drop 4 8 blob))

module _ (c : Codec) where
  -- What a payload is under each magic that is accepted.
  abbrev Accepts : Bytes → Bytes → Bytes → Type 0
  Accepts magic payload p =
      ((magic ≡ magic_uncompressed) × (payload ≡ p))
      ⊎ ((magic ≡ magic_zstd) × (c.zstd_decode payload ≡ some p))

  decode_payload-Accepts :
      (magic payload p : Bytes) → decode_payload c magic payload ≡ ok p → Accepts magic payload p
  unfolding decode_payload zstd_decompress
  decode_payload-Accepts magic payload p h =
      ground (arith, list_eq_iff magic magic_uncompressed, list_eq_iff magic magic_zstd)

  blob-framed :
      (blob : Bytes)
      → All IsByte blob
      → header_size ≤ length blob
      → c.crc32 (drop header_size blob) ≡ from_le (slice 8 12 blob)
      → blob ≡ framed c (slice 0 8 blob) (drop header_size blob)
  blob-framed blob bytes long e =
      blob_parts blob
      ∙ ap (λ crc. slice 0 8 blob ++ (crc ++ drop header_size blob)) (sym (rw (← e) at stored))
    where
      stored : to_le 4 (from_le (slice 8 12 blob)) ≡ slice 8 12 blob
      stored =
          let four : length (slice 8 12 blob) ≡ 4 = length-slice 8 12 blob (omega arith) long in
          rw four at
            (to_le-from_le (slice 8 12 blob) (All-take IsByte 4 _ (All-drop IsByte 8 blob bytes)))

  decode_checks :
      (blob p : Bytes)
      → decode c blob ≡ ok p
      → (header_size ≤ length blob)
        × (c.crc32 (drop header_size blob) ≡ from_le (slice 8 12 blob))
        × (decode_payload c (slice 0 8 blob) (drop header_size blob) ≡ ok p)
  unfolding decode
  decode_checks blob p h = ground arith

  -- A blob of bytes that decodes to `p` is the uncompressed frame of `p`, or the zstd frame of a
  -- compressed text that the decoder expands to `p`.
  pub decode_sound :
      (blob p : Bytes)
      → All IsByte blob
      → decode c blob ≡ ok p
      → (blob ≡ encode_uncompressed c p)
        ⊎ ((frame : Bytes) × (blob ≡ frame_zstd c frame) × (c.zstd_decode frame ≡ some p))
  unfolding encode_uncompressed frame_zstd
  decode_sound blob p bytes h =
      let (long, crc, body) = decode_checks blob p h in
      let whole : blob ≡ framed c (slice 0 8 blob) (drop header_size blob) =
        blob-framed blob bytes long crc in
      elim (decode_payload-Accepts (slice 0 8 blob) (drop header_size blob) p body) [
        | inl (m, q) ↦ inl (whole ∙ ap₂ (framed c) m q)
        | inr (m, q) ↦
            inr (drop header_size blob, whole ∙ ap (λ k. framed c k (drop header_size blob)) m, q)
      ]
