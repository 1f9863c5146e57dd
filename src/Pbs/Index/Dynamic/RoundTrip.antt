-- ===== src/Pbs/Index/Dynamic/RoundTrip.antt =====
-- A dynamic index file parses back to what was built, and a parsed file is laid out as it must be.
use pbsgui.Base.{
  ==_iff, All, HasLength, List, [], ap, append-nil, ap₂, arith, chunks_exact-concat, concat, drop,
  drop-append, drop_slots, false, length, length-concat, length-map, le→ltb, list_eq_refl, ltb, map,
  ok, refl, slice, slice_slot, take, take-append, take_all, true, ℕ, ◌%◌, ◌*◌, ◌++◌, ◌+◌, ◌<◌, ◌==◌,
  ◌^◌, ◌∙◌, ◌∷◌, ◌≡◌, ◌≤◌,
}
use pbsgui.Base.Bytes.{Bytes, to_le, from_le-to_le, length-to_le}
use pbsgui.Pbs.Index.{Sha256, Sha256Laws, header_len}
use pbsgui.Pbs.Index.Buffer.{zeros, length-slots, length-zeros}
use pbsgui.Pbs.Index.Dynamic.{
  DynamicIndexBuilder, DynamicIndex, Entry, dynamic_magic, dynamic_entry_len, entry_bytes,
  index_csum, entries_csum, serialize, verify_csum, read_entry, parse_fields, parse,
}
use pbsgui.Pbs.Index.Dynamic.Layout.{
  IsEntry, IsSized, entry_sizes, body_of, dynamic_slots, head_slots, csum_size, length-head_slots,
  serialize-slots,
}

read_entry-entry_bytes : (e : Entry) → IsEntry e → read_entry (entry_bytes e) ≡ e
unfolding read_entry
read_entry-entry_bytes (end_offset, d) h =
    let lt : length (to_le 8 end_offset) ≡ 8 = length-to_le 8 end_offset in
    let front : slice 0 8 (to_le 8 end_offset ++ d) ≡ to_le 8 end_offset =
      take-append (to_le 8 end_offset) d 8 lt in
    let back : slice 8 40 (to_le 8 end_offset ++ d) ≡ d =
      ap (take 32) (drop-append (to_le 8 end_offset) d 8 lt) ∙ take_all 32 d (omega (arith, h.1)) in
    rw (front, back, from_le-to_le 8 end_offset h.0)

read_entries : (es : List Entry) → All IsEntry es → map read_entry (map entry_bytes es) ≡ es
read_entries [] h = refl
read_entries (e ∷ es) h = ap₂ (λ a b. a ∷ b) (read_entry-entry_bytes e h.0) (read_entries es h.1)

-- What `parse` answers on a file whose slices are known.
parse_slices :
    (file uuid csum : Bytes) (ctime : ℕ) (es : List Entry)
    → header_len ≤ length file
    → slice 0 8 file ≡ dynamic_magic
    → slice 8 24 file ≡ uuid
    → slice 24 32 file ≡ to_le 8 ctime
    → slice 32 64 file ≡ csum
    → drop header_len file ≡ concat (map entry_bytes es)
    → ctime < 256 ^ 8
    → All IsEntry es
    → parse file ≡ ok (record { ctime = ctime; uuid = uuid; index_csum = csum; entries = es })
unfolding parse parse_fields
parse_slices file uuid csum ctime es long m u t c d fits sized =
    let short : ltb (length file) header_len ≡ false = le→ltb _ _ long in
    let sizes : All (HasLength 40) (map entry_bytes es) = entry_sizes es sized in
    let whole : (length (concat (map entry_bytes es)) % dynamic_entry_len == 0) ≡ true =
      (==_iff _ _).1 (omega (arith, length-concat 40 (map entry_bytes es) sizes)) in
    rw (
      short,
      m,
      list_eq_refl dynamic_magic,
      d,
      whole,
      u,
      t,
      c,
      from_le-to_le 8 ctime fits,
      chunks_exact-concat 40 (map entry_bytes es) (omega arith) sizes,
      read_entries es sized,
    )

module _ (h : Sha256) (laws : Sha256Laws h) where
  -- The index that stands in the file of a builder.
  abbrev pub built : DynamicIndexBuilder → DynamicIndex
  built b = record {
    ctime = b.ctime;
    uuid = b.uuid;
    index_csum = index_csum h b;
    entries = b.entries;
  }

  length-dynamic_slots :
      (b : DynamicIndexBuilder)
      → IsSized b
      → length (concat (dynamic_slots h laws b)) ≡ header_len + length b.entries * dynamic_entry_len
  length-dynamic_slots b sized = omega (
    arith,
    length-slots (dynamic_slots h laws b),
    sized.uuid_size,
    csum_size h laws b,
    length-to_le 8 b.ctime,
    length-zeros 4032,
    length-concat 40 (map entry_bytes b.entries) (entry_sizes b.entries sized.entries_sized),
    length-map entry_bytes b.entries,
  )

  parse-slots :
      (b : DynamicIndexBuilder) → IsSized b → parse (concat (dynamic_slots h laws b)) ≡ ok (built b)
  parse-slots b sized =
      let t : Bytes = to_le 8 b.ctime in
      let c : Bytes = index_csum h b in
      let rest : List Bytes = zeros 4032 ∷ body_of h laws b ∷ [] in
      let lt : length t ≡ 8 = length-to_le 8 b.ctime in
      let lu : length b.uuid ≡ 16 = sized.uuid_size in
      let lc : length c ≡ 32 = csum_size h laws b in
      let m : Bytes = dynamic_magic in
      parse_slices (concat (dynamic_slots h laws b)) b.uuid c b.ctime b.entries
        (omega (arith, length-dynamic_slots b sized)) refl
        (slice_slot (m ∷ []) b.uuid (t ∷ c ∷ rest) 8 24 refl (omega arith))
        (slice_slot (m ∷ b.uuid ∷ []) t (c ∷ rest) 24 32
          (omega (arith, length-slots (m ∷ b.uuid ∷ []))) (omega arith))
        (slice_slot (m ∷ b.uuid ∷ t ∷ []) c rest 32 64
          (omega (arith, length-slots (m ∷ b.uuid ∷ t ∷ []))) (omega arith))
        (drop_slots (head_slots h laws b) (body_of h laws b ∷ []) header_len
            (length-head_slots h laws b sized)
          ∙ append-nil (body_of h laws b))
        sized.ctime_fits sized.entries_sized

  -- A built dynamic index, serialized, parses back to all its fields, and passes its csum check.
  pub parse-serialize_dynamic :
      (b : DynamicIndexBuilder)
      → IsSized b
      → (parse (serialize h b) ≡ ok (built b)) × (verify_csum h (built b) ≡ true)
  unfolding verify_csum index_csum
  parse-serialize_dynamic b sized = (
    ap parse (serialize-slots h laws b sized) ∙ parse-slots b sized,
    list_eq_refl (entries_csum h b.entries),
  )

  -- The file is the header of 4096 bytes and 40 bytes for each entry.
  pub length-serialize_dynamic :
      (b : DynamicIndexBuilder)
      → IsSized b
      → length (serialize h b) ≡ header_len + length b.entries * dynamic_entry_len
  length-serialize_dynamic b sized =
      ap length (serialize-slots h laws b sized) ∙ length-dynamic_slots b sized
