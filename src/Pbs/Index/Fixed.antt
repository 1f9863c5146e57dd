-- ===== src/Pbs/Index/Fixed.antt =====
-- crates/pbs-client/src/index.rs: `FixedIndexBuilder` and `FixedIndex`.
pub mod Layout
pub mod RoundTrip
use pbsgui.Base.{
  Bool, List, [], chunks_exact, concat, copy_at, drop, err, if◌then◌else◌, length, list_eq, ltb, ok,
  replicate, slice, ℕ, ◌%◌, ◌*◌, ◌++◌, ◌+◌, ◌/◌, ◌==◌, ◌∷◌,
}
use pbsgui.Base.Bytes.{Bytes, to_le, from_le}
use pbsgui.Pbs.Error.{PbsResult, protocol, index_too_short, bad_index_magic, index_body_not_whole}
use pbsgui.Pbs.Index.{Sha256, header_len, digest_len, write_header}

abbrev pub fixed_magic : Bytes
fixed_magic = 47 ∷ 127 ∷ 65 ∷ 237 ∷ 145 ∷ 253 ∷ 15 ∷ 205 ∷ []

-- `ctime` is the bit pattern of the source's i64.
pub record FixedIndexBuilder : Type 0 where
  pub size : ℕ
  pub chunk_size : ℕ
  pub ctime : ℕ
  pub uuid : Bytes
  pub digests : List Bytes

unfoldable pub new : ℕ → ℕ → ℕ → Bytes → FixedIndexBuilder
new size chunk_size ctime uuid = record {
  size = size;
  chunk_size = chunk_size;
  ctime = ctime;
  uuid = uuid;
  digests = [];
}

unfoldable pub push_digest : FixedIndexBuilder → Bytes → FixedIndexBuilder
push_digest b digest = record b { digests = b.digests ++ (digest ∷ []) }

unfoldable pub chunk_count : FixedIndexBuilder → ℕ
chunk_count b = length b.digests

-- `size.div_ceil(chunk_size)`; the source panics where `chunk_size` is 0.
unfoldable pub expected_chunk_count : FixedIndexBuilder → ℕ
expected_chunk_count b =
    if ltb 0 (b.size % b.chunk_size) then b.size / b.chunk_size + 1 else b.size / b.chunk_size

-- `start = HEADER_LEN + i * DIGEST_LEN`, for each digest in turn.
unfoldable pub write_digests : Bytes → ℕ → List Bytes → Bytes
write_digests out i [] = out
write_digests out i (d ∷ ds) =
    write_digests (copy_at out (header_len + i * digest_len) d) (i + 1) ds

pub record FixedIndex : Type 0 where
  pub ctime : ℕ
  pub uuid : Bytes
  pub size : ℕ
  pub chunk_size : ℕ
  pub index_csum : Bytes
  pub digests : List Bytes

module _ (h : Sha256) where
  unfoldable pub index_csum : FixedIndexBuilder → Bytes
  index_csum b = h.digest (concat b.digests)

  unfoldable pub serialize : FixedIndexBuilder → Bytes
  serialize b =
      let out = replicate (header_len + length b.digests * digest_len) 0 in
      let headed = write_header out fixed_magic b.uuid b.ctime (index_csum b) in
      let sized = copy_at (copy_at headed 64 (to_le 8 b.size)) 72 (to_le 8 b.chunk_size) in
      write_digests sized 0 b.digests

  unfoldable pub verify_csum : FixedIndex → Bool
  verify_csum ix = list_eq (h.digest (concat ix.digests)) ix.index_csum

-- The fields of an index file whose length and magic were checked.
unfoldable pub parse_fields : Bytes → PbsResult FixedIndex
parse_fields bytes =
    let body = drop header_len bytes in
    if length body % digest_len == 0
    then ok (record {
      ctime = from_le (slice 24 32 bytes);
      uuid = slice 8 24 bytes;
      size = from_le (slice 64 72 bytes);
      chunk_size = from_le (slice 72 80 bytes);
      index_csum = slice 32 64 bytes;
      digests = chunks_exact digest_len body;
    })
    else err (protocol index_body_not_whole)

unfoldable pub parse : Bytes → PbsResult FixedIndex
parse bytes =
    if ltb (length bytes) header_len
    then err (protocol index_too_short)
    else if list_eq (slice 0 8 bytes) fixed_magic
    then parse_fields bytes
    else err (protocol bad_index_magic)
