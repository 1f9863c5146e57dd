-- ===== src/Pbs/Blob.antt =====
-- crates/pbs-client/src/blob.rs: the framing of an unencrypted DataBlob.
pub mod RoundTrip
pub mod Sound
use pbsgui.Base.{
  ℕ, ◌+◌, ◌<◌, ◌^◌, ◌≡◌, Option, none, some, List, [], ◌∷◌, ◌++◌, length, drop, slice, ltb, ◌==◌,
  list_eq, if◌then◌else◌, ok, err, ◌||◌,
}
use pbsgui.Base.Bytes.{Bytes, to_le, from_le}
use pbsgui.Pbs.Error.{
  PbsResult, protocol, blob_too_short, blob_crc_mismatch, blob_is_encrypted, unknown_blob_magic,
  zstd_failed,
}

-- The crates crc32fast and ruzstd: the checksum, the encoder, and the decoder, which may fail.
pub record Codec : Type 0 where
  pub crc32 : Bytes → ℕ
  pub zstd_compress : Bytes → Bytes
  pub zstd_decode : Bytes → Option Bytes

-- What the client relies on: a checksum of 32 bits, and frames that decode to what was encoded.
pub record CodecLaws (c : Codec) : Type 0 where
  pub crc32_range : (p : Bytes) → c.crc32 p < 256 ^ 4
  pub zstd_decode-compress : (p : Bytes) → c.zstd_decode (c.zstd_compress p) ≡ some p

abbrev pub magic_uncompressed : Bytes
magic_uncompressed = 66 ∷ 171 ∷ 56 ∷ 7 ∷ 190 ∷ 131 ∷ 112 ∷ 161 ∷ []

abbrev pub magic_zstd : Bytes
magic_zstd = 49 ∷ 185 ∷ 88 ∷ 66 ∷ 111 ∷ 182 ∷ 163 ∷ 127 ∷ []

abbrev pub magic_encrypted : Bytes
magic_encrypted = 123 ∷ 103 ∷ 133 ∷ 190 ∷ 34 ∷ 45 ∷ 76 ∷ 240 ∷ []

abbrev pub magic_encrypted_zstd : Bytes
magic_encrypted_zstd = 230 ∷ 89 ∷ 27 ∷ 191 ∷ 11 ∷ 191 ∷ 216 ∷ 11 ∷ []

-- Magic and checksum.
abbrev pub header_size : ℕ
header_size = 12

module _ (c : Codec) where
  -- `magic | crc32-le | payload`, as `encode_uncompressed` and `frame_zstd` write it.
  abbrev pub framed : Bytes → Bytes → Bytes
  framed magic payload = magic ++ (to_le 4 (c.crc32 payload) ++ payload)

  unfoldable pub encode_uncompressed : Bytes → Bytes
  encode_uncompressed payload = framed magic_uncompressed payload

  unfoldable pub frame_zstd : Bytes → Bytes
  frame_zstd frame = framed magic_zstd frame

  pub encode_compressed : Bytes → Bytes
  encode_compressed payload = frame_zstd (c.zstd_compress payload)

  unfoldable pub encode_auto : Bytes → Bytes
  encode_auto payload =
      let compressed = c.zstd_compress payload in
      if ltb (length compressed) (length payload)
      then frame_zstd compressed
      else encode_uncompressed payload

  unfoldable pub zstd_decompress : Bytes → PbsResult Bytes
  zstd_decompress frame = elim (c.zstd_decode frame) [
    | none ↦ err (protocol zstd_failed)
    | some p ↦ ok p
  ]

  -- The `match magic` of `decode`.
  unfoldable pub decode_payload : Bytes → Bytes → PbsResult Bytes
  decode_payload magic payload =
      if list_eq magic magic_uncompressed
      then ok payload
      else if list_eq magic magic_zstd
      then zstd_decompress payload
      else if list_eq magic magic_encrypted || list_eq magic magic_encrypted_zstd
      then err (protocol blob_is_encrypted)
      else err (protocol unknown_blob_magic)

  pub decode : Bytes → PbsResult Bytes
  decode blob =
      if ltb (length blob) header_size
      then err (protocol blob_too_short)
      else (let magic = slice 0 8 blob in
          let crc_stored = from_le (slice 8 12 blob) in
          let payload = drop header_size blob in
          if c.crc32 payload == crc_stored
          then decode_payload magic payload
          else err (protocol blob_crc_mismatch))
