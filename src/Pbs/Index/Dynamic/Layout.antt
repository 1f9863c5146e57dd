-- ===== src/Pbs/Index/Dynamic/Layout.antt =====
-- What `serialize` of a dynamic index writes, slot by slot.
use pbsgui.Base.{
  All, HasLength, List, [], ap, append-nil, append_assoc, arith, concat, concat-append, copy_at,
  copy_at-middle, length, length-append, map, refl, replicate, sym, ℕ, ◌*◌, ◌++◌, ◌+◌, ◌<◌, ◌^◌,
  ◌∙◌, ◌∷◌, ◌≡◌,
}
use pbsgui.Base.Bytes.{Bytes, to_le, length-to_le}
use pbsgui.Pbs.Index.{Sha256, Sha256Laws, header_len, write_header}
use pbsgui.Pbs.Index.Buffer.{
  zeros, sum, zeros_slots, zeros_split, length-zeros, header_slots, length-slots,
  write_header_slots,
}
use pbsgui.Pbs.Index.Dynamic.{
  DynamicIndexBuilder, Entry, dynamic_magic, dynamic_entry_len, entry_bytes, index_csum, serialize,
  write_entries,
}

-- An entry of the source's types: an offset of 8 bytes and a digest of 32.
abbrev pub IsEntry : Entry → Type 0
IsEntry (end_offset, d) = (end_offset < 256 ^ 8) × HasLength 32 d

pub record IsSized (b : DynamicIndexBuilder) : Type 0 where
  pub ctime_fits : b.ctime < 256 ^ 8
  pub uuid_size : HasLength 16 b.uuid
  pub entries_sized : All IsEntry b.entries

pub entry_sizes : (es : List Entry) → All IsEntry es → All (HasLength 40) (map entry_bytes es)
entry_sizes [] h = tt
entry_sizes ((end_offset, d) ∷ es) h = (
  omega (arith, length-append (to_le 8 end_offset) d, length-to_le 8 end_offset, h.0.1),
  entry_sizes es h.1,
)

-- The loop over the entries replaces the zeros behind `pre` by the entries.
write_entries_lem :
    (pre : Bytes) (pos : ℕ) (es : List Entry)
    → length pre ≡ pos
    → All IsEntry es
    → write_entries (pre ++ zeros (length es * dynamic_entry_len)) pos es
      ≡ pre ++ concat (map entry_bytes es)
unfolding write_entries replicate
write_entries_lem pre pos [] hp he = refl
write_entries_lem pre pos ((end_offset, d) ∷ es) hp he =
    let n : ℕ = length es * dynamic_entry_len in
    let end_le : Bytes = to_le 8 end_offset in
    ap
      (λ b. write_entries (copy_at (copy_at b pos end_le) (pos + 8) d) (pos + dynamic_entry_len) es)
      (ap (λ z. pre ++ z)
        (zeros_split 8 (32 + n) (length ((end_offset, d) ∷ es) * dynamic_entry_len) (omega arith)
          ∙ ap (λ z. zeros 8 ++ z) (zeros_split 32 n (32 + n) refl)))
    ∙ ap (λ b. write_entries (copy_at b (pos + 8) d) (pos + dynamic_entry_len) es)
        (copy_at-middle pre (zeros 8) (zeros 32 ++ zeros n) end_le pos hp
            (length-zeros 8 ∙ sym (length-to_le 8 end_offset))
          ∙ sym (append_assoc pre end_le (zeros 32 ++ zeros n)))
    ∙ ap (λ b. write_entries b (pos + dynamic_entry_len) es)
        (copy_at-middle (pre ++ end_le) (zeros 32) (zeros n) d (pos + 8)
            (omega (arith, length-append pre end_le, length-to_le 8 end_offset, hp))
            (length-zeros 32 ∙ sym he.0.1)
          ∙ sym (append_assoc (pre ++ end_le) d (zeros n)))
    ∙ write_entries_lem ((pre ++ end_le) ++ d) (pos + dynamic_entry_len) es
        (omega (
          arith,
          length-append (pre ++ end_le) d,
          length-append pre end_le,
          length-to_le 8 end_offset,
          hp,
          he.0.1,
        ))
        he.1
    ∙ ap (λ z. z ++ concat (map entry_bytes es)) (append_assoc pre end_le d)
    ∙ append_assoc pre (end_le ++ d) (concat (map entry_bytes es))

module _ (h : Sha256) (laws : Sha256Laws h) where
  abbrev pub body_of : DynamicIndexBuilder → Bytes
  body_of b = concat (map entry_bytes b.entries)

  abbrev header_of : DynamicIndexBuilder → List Bytes
  header_of b = header_slots dynamic_magic b.uuid b.ctime (index_csum h b)

  -- The file as a row of slots: the header fields, the reserved bytes and the entries.
  abbrev pub dynamic_slots : DynamicIndexBuilder → List Bytes
  dynamic_slots b = header_of b ++ (zeros 4032 ∷ body_of b ∷ [])

  abbrev pub head_slots : DynamicIndexBuilder → List Bytes
  head_slots b = header_of b ++ (zeros 4032 ∷ [])

  pub csum_size : (b : DynamicIndexBuilder) → HasLength 32 (index_csum h b)
  unfolding index_csum
  csum_size b = laws.digest_size (concat (map entry_bytes b.entries))

  pub length-head_slots :
      (b : DynamicIndexBuilder) → IsSized b → length (concat (head_slots b)) ≡ header_len
  length-head_slots b sized = omega (
    arith,
    length-slots (head_slots b),
    sized.uuid_size,
    csum_size b,
    length-to_le 8 b.ctime,
    length-zeros 4032,
  )

  buffer_slots :
      (n : ℕ)
      → zeros (header_len + n)
        ≡ concat (zeros 8 ∷ zeros 16 ∷ zeros 8 ∷ zeros 32 ∷ zeros 4032 ∷ zeros n ∷ [])
  buffer_slots n = ap zeros (total n) ∙ zeros_slots (8 ∷ 16 ∷ 8 ∷ 32 ∷ 4032 ∷ n ∷ [])
    where
      total : (k : ℕ) → header_len + k ≡ sum (8 ∷ 16 ∷ 8 ∷ 32 ∷ 4032 ∷ k ∷ [])
      total k = omega arith

  headed :
      (b : DynamicIndexBuilder)
      → IsSized b
      → write_header
          (zeros (header_len + length b.entries * dynamic_entry_len))
          dynamic_magic
          b.uuid
          b.ctime
          (index_csum h b)
        ≡ concat (head_slots b) ++ zeros (length b.entries * dynamic_entry_len)
  headed b sized =
      let n : ℕ = length b.entries * dynamic_entry_len in
      ap (λ z. write_header z dynamic_magic b.uuid b.ctime (index_csum h b)) (buffer_slots n)
      ∙ write_header_slots dynamic_magic b.uuid (index_csum h b) b.ctime refl sized.uuid_size
          (csum_size b) (zeros 4032 ∷ zeros n ∷ [])
      ∙ concat-append (head_slots b) (zeros n ∷ [])
      ∙ ap (λ z. concat (head_slots b) ++ z) (append-nil (zeros n))

  -- `serialize` writes the header fields, 4032 reserved zeros and the entries, in this order.
  pub serialize-slots :
      (b : DynamicIndexBuilder) → IsSized b → serialize h b ≡ concat (dynamic_slots b)
  unfolding serialize
  serialize-slots b sized =
      ap (λ z. write_entries z header_len b.entries) (headed b sized)
      ∙ write_entries_lem (concat (head_slots b)) header_len b.entries (length-head_slots b sized)
          sized.entries_sized
      ∙ ap (λ z. concat (head_slots b) ++ z) (sym (append-nil (body_of b)))
      ∙ sym (concat-append (head_slots b) (body_of b ∷ []))
