-- ===== src/Pbs/Index/Dynamic.antt =====
-- crates/pbs-client/src/index.rs: `DynamicIndexBuilder` and `DynamicIndex`.
pub mod Layout
pub mod RoundTrip
use pbsgui.Base.{
  Bool, List, [], chunks_exact, concat, copy_at, drop, err, if◌then◌else◌, last?, length, list_eq,
  ltb, map, none, ok, replicate, slice, some, ℕ, ◌%◌, ◌*◌, ◌++◌, ◌+◌, ◌==◌, ◌∷◌,
}
use pbsgui.Base.Bytes.{Bytes, to_le, from_le}
use pbsgui.Pbs.Error.{PbsResult, protocol, index_too_short, bad_index_magic, index_body_not_whole}
use pbsgui.Pbs.Index.{Sha256, header_len, digest_len, write_header}

abbrev pub dynamic_magic : Bytes
dynamic_magic = 28 ∷ 145 ∷ 78 ∷ 165 ∷ 25 ∷ 186 ∷ 179 ∷ 205 ∷ []

-- End offset and digest.
abbrev pub dynamic_entry_len : ℕ
dynamic_entry_len = 8 + digest_len

-- The cumulative end offset of a chunk, and its digest.
abbrev pub Entry : Type 0
Entry = ℕ × Bytes

pub record DynamicIndexBuilder : Type 0 where
  pub ctime : ℕ
  pub uuid : Bytes
  pub entries : List Entry

unfoldable pub new : ℕ → Bytes → DynamicIndexBuilder
new ctime uuid = record { ctime = ctime; uuid = uuid; entries = [] }

unfoldable pub push : DynamicIndexBuilder → ℕ → Bytes → DynamicIndexBuilder
push b end_offset digest = record b { entries = b.entries ++ ((end_offset, digest) ∷ []) }

unfoldable pub entry_count : DynamicIndexBuilder → ℕ
entry_count b = length b.entries

-- The end offset of the last entry, or 0.
unfoldable pub last_end : List Entry → ℕ
last_end es = elim (last? es) [ none ↦ 0 | some (end_offset, d) ↦ end_offset ]

unfoldable pub total_size : DynamicIndexBuilder → ℕ
unfolding last_end
total_size b = last_end b.entries

abbrev pub entry_bytes : Entry → Bytes
entry_bytes (end_offset, d) = to_le 8 end_offset ++ d

unfoldable pub write_entries : Bytes → ℕ → List Entry → Bytes
write_entries out pos [] = out
write_entries out pos ((end_offset, d) ∷ es) =
    write_entries (copy_at (copy_at out pos (to_le 8 end_offset)) (pos + 8) d)
      (pos + dynamic_entry_len) es

pub record DynamicIndex : Type 0 where
  pub ctime : ℕ
  pub uuid : Bytes
  pub index_csum : Bytes
  pub entries : List Entry

unfoldable pub digests : DynamicIndex → List Bytes
digests ix = map (λ e. e.1) ix.entries

module _ (h : Sha256) where
  -- The csum covers each end offset and digest.
  unfoldable pub entries_csum : List Entry → Bytes
  entries_csum es = h.digest (concat (map entry_bytes es))

  unfoldable pub index_csum : DynamicIndexBuilder → Bytes
  unfolding entries_csum
  index_csum b = entries_csum b.entries

  unfoldable pub serialize : DynamicIndexBuilder → Bytes
  serialize b =
      let out = replicate (header_len + length b.entries * dynamic_entry_len) 0 in
      let headed = write_header out dynamic_magic b.uuid b.ctime (index_csum b) in
      write_entries headed header_len b.entries

  unfoldable pub verify_csum : DynamicIndex → Bool
  unfolding entries_csum
  verify_csum ix = list_eq (entries_csum ix.entries) ix.index_csum

unfoldable pub read_entry : Bytes → Entry
read_entry e = (from_le (slice 0 8 e), slice 8 dynamic_entry_len e)

-- The fields of an index file whose length and magic were checked.
unfoldable pub parse_fields : Bytes → PbsResult DynamicIndex
parse_fields bytes =
    let body = drop header_len bytes in
    if length body % dynamic_entry_len == 0
    then ok (record {
      ctime = from_le (slice 24 32 bytes);
      uuid = slice 8 24 bytes;
      index_csum = slice 32 64 bytes;
      entries = map read_entry (chunks_exact dynamic_entry_len body);
    })
    else err (protocol index_body_not_whole)

unfoldable pub parse : Bytes → PbsResult DynamicIndex
parse bytes =
    if ltb (length bytes) header_len
    then err (protocol index_too_short)
    else if list_eq (slice 0 8 bytes) dynamic_magic
    then parse_fields bytes
    else err (protocol bad_index_magic)
