-- ===== src/Pbs/Tests.antt =====
-- Concrete inputs for the theorems on blobs, indexes, encryption, chunks and repositories.
use pbsgui.Base.{[], arith, list_eq, none, ok, refl, replicate, some, true, ◌++◌, ◌∷◌, ◌≡◌, ◌⊎◌}
use pbsgui.Base.Bytes.{Bytes, IsByte}
use pbsgui.Pbs.Blob.{Codec, CodecLaws, encode_uncompressed, encode_auto, frame_zstd, decode}
use pbsgui.Pbs.Blob.RoundTrip.{decode-encode_auto, decode-encode_uncompressed}
use pbsgui.Pbs.Blob.Sound.{decode_sound}
use pbsgui.Pbs.Index.{Sha256, Sha256Laws, header_len, digest_len}
use pbsgui.Pbs.Index.Fixed.{
  FixedIndexBuilder, parse as parse_fixed, serialize as serialize_fixed,
  verify_csum as verify_fixed,
}
use pbsgui.Pbs.Index.Fixed.Layout.{IsSized as IsSizedFixed}
use pbsgui.Pbs.Index.Fixed.RoundTrip.{parse-serialize}
use pbsgui.Pbs.Index.Fixed.RoundTrip.{built as built_fixed}
use pbsgui.Pbs.Index.Dynamic.{
  DynamicIndexBuilder, parse as parse_dynamic, serialize as serialize_dynamic,
  verify_csum as verify_dynamic,
}
use pbsgui.Pbs.Index.Dynamic.Layout.{IsSized as IsSizedDynamic}
use pbsgui.Pbs.Index.Dynamic.RoundTrip.{built as built_dynamic}
use pbsgui.Pbs.Index.Dynamic.RoundTrip.{parse-serialize_dynamic}
use pbsgui.Pbs.Crypt.{Cipher, CipherLaws, CryptConfig, encrypt_compressed_blob}
use pbsgui.Pbs.Crypt.RoundTrip.{Encrypts, decrypt-encrypt_compressed_blob}
use pbsgui.Pbs.Session.Chunk.{digest_of, encode_chunk, decode_blob, decode_and_verify_chunk}
use pbsgui.Pbs.Session.Chunk.RoundTrip.{restore-encode_chunk}

-- A checksum that is always 7, and a compression that puts a byte in front.
abbrev pub codec : Codec
codec = record {
  crc32 = λ p. 7;
  zstd_compress = λ p. 9 ∷ p;
  zstd_decode = λ f. elim f [ [] ↦ none | b ∷ p ↦ some p ];
}

pub codec_laws : CodecLaws codec
codec_laws = record { crc32_range = λ p. omega arith; zstd_decode-compress = λ p. refl }

abbrev pub hash : Sha256
hash = record { digest = λ p. replicate 32 1 }

pub hash_laws : Sha256Laws hash
unfolding replicate
hash_laws = record { digest_size = λ b. refl }

-- A cipher that leaves the text and appends no secret.
abbrev pub tag_bytes : Bytes
tag_bytes = 3 ∷ 3 ∷ 3 ∷ 3 ∷ 3 ∷ 3 ∷ 3 ∷ 3 ∷ 3 ∷ 3 ∷ 3 ∷ 3 ∷ 3 ∷ 3 ∷ 3 ∷ 3 ∷ []

abbrev pub cipher : Cipher
cipher = record {
  seal = λ key iv p. some (p, tag_bytes);
  unseal = λ key iv text tag. some text;
  derive_id_key = λ key. key;
}

abbrev pub cipher_laws : CipherLaws cipher
cipher_laws = record { limit = 100; seals = λ key iv p hk hi hp. (p, tag_bytes, refl, refl, refl) }

abbrev key_config : CryptConfig
key_config = record { enc_key = tag_bytes ++ tag_bytes; id_key = tag_bytes ++ tag_bytes }

abbrev pub payload : Bytes
payload = 1 ∷ 2 ∷ 3 ∷ []

abbrev digest_one : Bytes
digest_one = tag_bytes ++ tag_bytes

decode-encode_auto_example : decode codec (encode_auto codec payload) ≡ ok payload
decode-encode_auto_example = decode-encode_auto codec codec_laws payload

-- The frame of the payload under the checksum 7.
abbrev pub hello_blob : Bytes
hello_blob = 66 ∷ 171 ∷ 56 ∷ 7 ∷ 190 ∷ 131 ∷ 112 ∷ 161 ∷ 7 ∷ 0 ∷ 0 ∷ 0 ∷ payload

decode_hello : decode codec hello_blob ≡ ok payload
unfolding encode_uncompressed pbsgui.Base.Bytes.to_le
decode_hello = decode-encode_uncompressed codec codec_laws payload

decode_sound_example :
    (hello_blob ≡ encode_uncompressed codec payload)
    ⊎ ((frame : Bytes) × (hello_blob ≡ frame_zstd codec frame)
        × (codec.zstd_decode frame ≡ some payload))
decode_sound_example = decode_sound codec hello_blob payload (ground arith) decode_hello

abbrev disk : FixedIndexBuilder
disk = record {
  size = 5000;
  chunk_size = 4096;
  ctime = 1700000000;
  uuid = tag_bytes;
  digests = digest_one ∷ digest_one ∷ [];
}

disk-IsSized : IsSizedFixed disk
disk-IsSized = record {
  size_fits = omega arith;
  chunk_size_fits = omega arith;
  ctime_fits = omega arith;
  uuid_size = refl;
  digest_sizes = (refl, (refl, tt));
}

parse-serialize_example :
    (parse_fixed (serialize_fixed hash disk) ≡ ok (built_fixed hash hash_laws disk))
    × (verify_fixed hash (built_fixed hash hash_laws disk) ≡ true)
parse-serialize_example = parse-serialize hash hash_laws disk disk-IsSized

abbrev archive : DynamicIndexBuilder
archive = record {
  ctime = 1700000000;
  uuid = tag_bytes;
  entries = (100, digest_one) ∷ (250, digest_one) ∷ [];
}

archive-IsSized : IsSizedDynamic archive
archive-IsSized = record {
  ctime_fits = omega arith;
  uuid_size = refl;
  entries_sized = ((omega arith, refl), ((omega arith, refl), tt));
}

parse-serialize_dynamic_example :
    (parse_dynamic (serialize_dynamic hash archive) ≡ ok (built_dynamic hash hash_laws archive))
    × (verify_dynamic hash (built_dynamic hash hash_laws archive) ≡ true)
parse-serialize_dynamic_example = parse-serialize_dynamic hash hash_laws archive archive-IsSized

decrypt-encrypt_compressed_blob_example :
    Encrypts codec cipher key_config payload
      (encrypt_compressed_blob codec cipher key_config (some tag_bytes) payload)
decrypt-encrypt_compressed_blob_example =
    decrypt-encrypt_compressed_blob codec codec_laws cipher cipher_laws key_config tag_bytes refl
      refl payload (omega arith)

pub restore_hello :
    decode_and_verify_chunk codec cipher hash hello_blob none (replicate 32 1) ≡ ok payload
unfolding decode_and_verify_chunk decode_blob pbsgui.Pbs.Session.Chunk.is_encrypted digest_of
    pbsgui.Pbs.Index.chunk_digest replicate list_eq
restore_hello = rw decode_hello

restore-encode_chunk_example :
    (blob : Bytes) × (encode_chunk codec cipher (some key_config) true (some tag_bytes) payload
      ≡ ok blob)
    × (decode_and_verify_chunk codec cipher hash blob
          (some key_config)
          (digest_of hash (some key_config) payload)
        ≡ ok payload)
restore-encode_chunk_example =
    restore-encode_chunk codec codec_laws cipher cipher_laws hash (some key_config) true tag_bytes
      payload refl refl (omega arith)
