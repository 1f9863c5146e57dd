-- ===== src/Pbs/Index/Fixed/RoundTrip.antt =====
-- A fixed index file parses back to what was built, and a parsed file is laid out as it must be.
use pbsgui.Base.{
  ==_iff, All, Bool-cases, HasLength, List, [], ap, append-nil, arith, chunks_exact,
  chunks_exact-concat, chunks_exact_whole, concat, drop, drop_slots, false, inl, inr, length,
  length-concat, length-drop, le→ltb, list_eq_iff, list_eq_refl, ltb, ok, ok-injective, refl, slice,
  slice_slot, sym, true, ℕ, ◌%◌, ◌*◌, ◌+◌, ◌<◌, ◌==◌, ◌^◌, ◌∙◌, ◌∷◌, ◌≡◌, ◌≤◌,
}
use pbsgui.Base.Bytes.{Bytes, to_le, from_le-to_le, length-to_le}
use pbsgui.Pbs.Index.{Sha256, Sha256Laws, header_len, digest_len}
use pbsgui.Pbs.Index.Buffer.{zeros, length-slots, length-zeros}
use pbsgui.Pbs.Index.Fixed.{
  FixedIndexBuilder, FixedIndex, fixed_magic, index_csum, serialize, verify_csum, parse_fields,
  parse,
}
use pbsgui.Pbs.Index.Fixed.Layout.{
  IsSized, fixed_slots, head_slots, csum_size, length-head_slots, serialize-slots,
}

-- What `parse` answers on a file whose slices are known.
parse_slices :
    (file uuid csum : Bytes) (ctime size chunk_size : ℕ) (ds : List Bytes)
    → header_len ≤ length file
    → slice 0 8 file ≡ fixed_magic
    → slice 8 24 file ≡ uuid
    → slice 24 32 file ≡ to_le 8 ctime
    → slice 32 64 file ≡ csum
    → slice 64 72 file ≡ to_le 8 size
    → slice 72 80 file ≡ to_le 8 chunk_size
    → drop header_len file ≡ concat ds
    → (ctime < 256 ^ 8) × (size < 256 ^ 8) × (chunk_size < 256 ^ 8)
    → All (HasLength 32) ds
    → parse file
      ≡ ok (record {
        ctime = ctime;
        uuid = uuid;
        size = size;
        chunk_size = chunk_size;
        index_csum = csum;
        digests = ds;
      })
unfolding parse parse_fields
parse_slices file uuid csum ctime size chunk_size ds long m u t c s k d (ft, fs, fk) sized =
    let short : ltb (length file) header_len ≡ false = le→ltb _ _ long in
    let whole : (length (concat ds) % digest_len == 0) ≡ true =
      (==_iff _ _).1 (omega (arith, length-concat 32 ds sized)) in
    rw (
      short,
      m,
      list_eq_refl fixed_magic,
      d,
      whole,
      u,
      t,
      c,
      s,
      k,
      from_le-to_le 8 ctime ft,
      from_le-to_le 8 size fs,
      from_le-to_le 8 chunk_size fk,
      chunks_exact-concat 32 ds (omega arith) sized,
    )

module _ (h : Sha256) (laws : Sha256Laws h) where
  -- The index that stands in the file of a builder.
  abbrev pub built : FixedIndexBuilder → FixedIndex
  built b = record {
    ctime = b.ctime;
    uuid = b.uuid;
    size = b.size;
    chunk_size = b.chunk_size;
    index_csum = index_csum h b;
    digests = b.digests;
  }

  length-fixed_slots :
      (b : FixedIndexBuilder)
      → IsSized b
      → length (concat (fixed_slots h laws b)) ≡ header_len + length b.digests * digest_len
  length-fixed_slots b sized = omega (
    arith,
    length-slots (fixed_slots h laws b),
    sized.uuid_size,
    csum_size h laws b,
    length-to_le 8 b.ctime,
    length-to_le 8 b.size,
    length-to_le 8 b.chunk_size,
    length-zeros 4016,
    length-concat 32 b.digests sized.digest_sizes,
  )

  parse-slots :
      (b : FixedIndexBuilder) → IsSized b → parse (concat (fixed_slots h laws b)) ≡ ok (built b)
  parse-slots b sized =
      let t : Bytes = to_le 8 b.ctime in
      let c : Bytes = index_csum h b in
      let s : Bytes = to_le 8 b.size in
      let k : Bytes = to_le 8 b.chunk_size in
      let rest : List Bytes = zeros 4016 ∷ concat b.digests ∷ [] in
      let lt : length t ≡ 8 = length-to_le 8 b.ctime in
      let ls : length s ≡ 8 = length-to_le 8 b.size in
      let lk : length k ≡ 8 = length-to_le 8 b.chunk_size in
      let lu : length b.uuid ≡ 16 = sized.uuid_size in
      let lc : length c ≡ 32 = csum_size h laws b in
      let m : Bytes = fixed_magic in
      parse_slices (concat (fixed_slots h laws b)) b.uuid c b.ctime b.size b.chunk_size b.digests
        (omega (arith, length-fixed_slots b sized)) refl
        (slice_slot (m ∷ []) b.uuid (t ∷ c ∷ s ∷ k ∷ rest) 8 24 refl (omega arith))
        (slice_slot (m ∷ b.uuid ∷ []) t (c ∷ s ∷ k ∷ rest) 24 32
          (omega (arith, length-slots (m ∷ b.uuid ∷ []))) (omega arith))
        (slice_slot (m ∷ b.uuid ∷ t ∷ []) c (s ∷ k ∷ rest) 32 64
          (omega (arith, length-slots (m ∷ b.uuid ∷ t ∷ []))) (omega arith))
        (slice_slot (m ∷ b.uuid ∷ t ∷ c ∷ []) s (k ∷ rest) 64 72
          (omega (arith, length-slots (m ∷ b.uuid ∷ t ∷ c ∷ []))) (omega arith))
        (slice_slot (m ∷ b.uuid ∷ t ∷ c ∷ s ∷ []) k rest 72 80
          (omega (arith, length-slots (m ∷ b.uuid ∷ t ∷ c ∷ s ∷ []))) (omega arith))
        (drop_slots (head_slots h laws b) (concat b.digests ∷ []) header_len
            (length-head_slots h laws b sized)
          ∙ append-nil (concat b.digests))
        (sized.ctime_fits, sized.size_fits, sized.chunk_size_fits) sized.digest_sizes

  -- A built index, serialized, parses back to all its fields, and passes its csum check.
  pub parse-serialize :
      (b : FixedIndexBuilder)
      → IsSized b
      → (parse (serialize h b) ≡ ok (built b)) × (verify_csum h (built b) ≡ true)
  unfolding verify_csum index_csum
  parse-serialize b sized = (
    ap parse (serialize-slots h laws b sized) ∙ parse-slots b sized,
    list_eq_refl (h.digest (concat b.digests)),
  )

  -- The file is the header of 4096 bytes and 32 bytes for each digest.
  pub length-serialize :
      (b : FixedIndexBuilder)
      → IsSized b
      → length (serialize h b) ≡ header_len + length b.digests * digest_len
  length-serialize b sized = ap length (serialize-slots h laws b sized) ∙ length-fixed_slots b sized

parse_fields-eq-ok :
    (file : Bytes) (ix : FixedIndex)
    → parse_fields file ≡ ok ix
    → (length (drop header_len file) % digest_len ≡ 0)
      × (ix.digests ≡ chunks_exact digest_len (drop header_len file))
unfolding parse_fields
parse_fields-eq-ok file ix e = elim (Bool-cases (length (drop header_len file) % digest_len == 0)) [
  | inl whole ↦ (
    (==_iff _ _).0 whole,
    sym (ap (λ (r : FixedIndex). r.digests) (ok-injective (rw whole at e))),
  )
  | inr part ↦ (cc (rw part at e), cc (rw part at e))
]

parse-eq-ok :
    (file : Bytes) (ix : FixedIndex)
    → parse file ≡ ok ix
    → (header_len ≤ length file) × (slice 0 8 file ≡ fixed_magic) × (parse_fields file ≡ ok ix)
unfolding parse
parse-eq-ok file ix e = ground (arith, list_eq_iff (slice 0 8 file) fixed_magic)

-- A file that parses has its header, the magic, and exactly the digests that its length allows,
-- each of 32 bytes, which together are the body.
pub parse_sound :
    (file : Bytes) (ix : FixedIndex)
    → parse file ≡ ok ix
    → (length file ≡ header_len + length ix.digests * digest_len)
      × (slice 0 8 file ≡ fixed_magic)
      × All (HasLength 32) ix.digests
      × (concat ix.digests ≡ drop header_len file)
parse_sound file ix e =
    let (long, magic, fields) = parse-eq-ok file ix e in
    let (whole, digests) = parse_fields-eq-ok file ix fields in
    let (count, sizes, body) = chunks_exact_whole digest_len (drop header_len file) whole in
    rw digests (omega (arith, count, length-drop header_len file, long), magic, sizes, body)
