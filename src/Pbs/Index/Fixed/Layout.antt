-- ===== src/Pbs/Index/Fixed/Layout.antt =====
-- What `serialize` writes, slot by slot.
use pbsgui.Base.{
  All, HasLength, List, [], ap, append-nil, append_assoc, arith, concat, concat-append, copy_at,
  copy_at-middle, copy_at_slot, length, length-append, refl, replicate, sym, ℕ, ◌*◌, ◌++◌, ◌+◌, ◌<◌,
  ◌^◌, ◌∙◌, ◌∷◌, ◌≡◌,
}
use pbsgui.Base.Bytes.{Bytes, to_le, length-to_le}
use pbsgui.Pbs.Index.{header_len, digest_len, Sha256, Sha256Laws, write_header}
use pbsgui.Pbs.Index.Buffer.{
  zeros, zeros_split, length-zeros, header_slots, length-header_slots, length-slots, sum,
  write_header_slots, zeros_slots,
}
use pbsgui.Pbs.Index.Fixed.{FixedIndexBuilder, write_digests, index_csum, serialize, fixed_magic}

-- The sizes that the source's types fix: integers of 8 bytes, a uuid of 16 and digests of 32.
pub record IsSized (b : FixedIndexBuilder) : Type 0 where
  pub size_fits : b.size < 256 ^ 8
  pub chunk_size_fits : b.chunk_size < 256 ^ 8
  pub ctime_fits : b.ctime < 256 ^ 8
  pub uuid_size : HasLength 16 b.uuid
  pub digest_sizes : All (HasLength 32) b.digests

-- The loop over the digests replaces the zeros behind `pre` by the digests.
write_digests_lem :
    (pre : Bytes) (i : ℕ) (ds : List Bytes)
    → length pre ≡ header_len + i * digest_len
    → All (HasLength 32) ds
    → write_digests (pre ++ zeros (length ds * digest_len)) i ds ≡ pre ++ concat ds
unfolding write_digests replicate
write_digests_lem pre i [] hp hd = refl
write_digests_lem pre i (d ∷ ds) hp hd =
    ap (λ b. write_digests b (i + 1) ds)
      (ap (λ z. copy_at (pre ++ z) (header_len + i * digest_len) d)
          (zeros_split 32 (length ds * digest_len) _ (omega arith))
        ∙ copy_at-middle pre (zeros 32) (zeros (length ds * digest_len)) d
            (header_len + i * digest_len) hp (length-zeros 32 ∙ sym hd.0)
        ∙ sym (append_assoc pre d (zeros (length ds * digest_len))))
    ∙ write_digests_lem (pre ++ d) (i + 1) ds (omega (arith, length-append pre d, hp, hd.0)) hd.1
    ∙ append_assoc pre d (concat ds)

module _ (h : Sha256) (laws : Sha256Laws h) where
  -- The file as a row of slots: the header fields, the reserved bytes and the digests.
  abbrev pub fixed_slots : FixedIndexBuilder → List Bytes
  fixed_slots b =
      header_slots fixed_magic b.uuid b.ctime (index_csum h b)
      ++ (to_le 8 b.size ∷ to_le 8 b.chunk_size ∷ zeros 4016 ∷ concat b.digests ∷ [])

  abbrev pub head_slots : FixedIndexBuilder → List Bytes
  head_slots b =
      header_slots fixed_magic b.uuid b.ctime (index_csum h b)
      ++ (to_le 8 b.size ∷ to_le 8 b.chunk_size ∷ zeros 4016 ∷ [])

  pub csum_size : (b : FixedIndexBuilder) → HasLength 32 (index_csum h b)
  unfolding index_csum
  csum_size b = laws.digest_size (concat b.digests)

  abbrev header_of : FixedIndexBuilder → List Bytes
  header_of b = header_slots fixed_magic b.uuid b.ctime (index_csum h b)

  length-header_of : (b : FixedIndexBuilder) → IsSized b → length (concat (header_of b)) ≡ 64
  length-header_of b sized =
      length-header_slots fixed_magic b.uuid (index_csum h b) b.ctime refl sized.uuid_size
        (csum_size b)

  length-sized_of :
      (b : FixedIndexBuilder)
      → IsSized b
      → length (concat (header_of b ++ (to_le 8 b.size ∷ []))) ≡ 72
  length-sized_of b sized = omega (
    arith,
    length-slots (header_of b ++ (to_le 8 b.size ∷ [])),
    sized.uuid_size,
    csum_size b,
    length-to_le 8 b.ctime,
    length-to_le 8 b.size,
  )

  pub length-head_slots :
      (b : FixedIndexBuilder) → IsSized b → length (concat (head_slots b)) ≡ header_len
  length-head_slots b sized = omega (
    arith,
    length-slots (head_slots b),
    sized.uuid_size,
    csum_size b,
    length-to_le 8 b.ctime,
    length-to_le 8 b.size,
    length-to_le 8 b.chunk_size,
    length-zeros 4016,
  )

  -- The buffer, split for all the writes that follow.
  buffer_slots :
      (n : ℕ)
      → zeros (header_len + n)
        ≡ concat (
            zeros 8 ∷ zeros 16 ∷ zeros 8 ∷ zeros 32 ∷ zeros 8 ∷ zeros 8 ∷ zeros 4016 ∷ zeros n ∷ [])
  buffer_slots n = ap zeros (total n) ∙ zeros_slots (8 ∷ 16 ∷ 8 ∷ 32 ∷ 8 ∷ 8 ∷ 4016 ∷ n ∷ [])
    where
      total : (k : ℕ) → header_len + k ≡ sum (8 ∷ 16 ∷ 8 ∷ 32 ∷ 8 ∷ 8 ∷ 4016 ∷ k ∷ [])
      total k = omega arith

  -- The buffer before the digests are written.
  headed :
      (b : FixedIndexBuilder)
      → IsSized b
      → copy_at
          (copy_at
            (write_header
              (zeros (header_len + length b.digests * digest_len))
              fixed_magic
              b.uuid
              b.ctime
              (index_csum h b))
            64
            (to_le 8 b.size))
          72
          (to_le 8 b.chunk_size)
        ≡ concat (head_slots b) ++ zeros (length b.digests * digest_len)
  headed b sized =
      let n : ℕ = length b.digests * digest_len in
      let le_size : Bytes = to_le 8 b.size in
      let le_chunk : Bytes = to_le 8 b.chunk_size in
      ap
        (λ z.
          copy_at (copy_at (write_header z fixed_magic b.uuid b.ctime (index_csum h b)) 64 le_size)
            72 le_chunk)
        (buffer_slots n)
      ∙ ap (λ z. copy_at (copy_at z 64 le_size) 72 le_chunk)
          (write_header_slots fixed_magic b.uuid (index_csum h b) b.ctime refl sized.uuid_size
            (csum_size b) (zeros 8 ∷ zeros 8 ∷ zeros 4016 ∷ zeros n ∷ []))
      ∙ ap (λ z. copy_at z 72 le_chunk)
          (copy_at_slot (header_of b) (zeros 8) (zeros 8 ∷ zeros 4016 ∷ zeros n ∷ []) le_size 64
            (length-header_of b sized) (length-zeros 8 ∙ sym (length-to_le 8 b.size)))
      ∙ copy_at_slot (header_of b ++ (le_size ∷ [])) (zeros 8) (zeros 4016 ∷ zeros n ∷ []) le_chunk
          72 (length-sized_of b sized) (length-zeros 8 ∙ sym (length-to_le 8 b.chunk_size))
      ∙ concat-append (head_slots b) (zeros n ∷ [])
      ∙ ap (λ z. concat (head_slots b) ++ z) (append-nil (zeros n))

  -- `serialize` writes the header fields, 4016 reserved zeros and the digests, in this order.
  pub serialize-slots : (b : FixedIndexBuilder) → IsSized b → serialize h b ≡ concat (fixed_slots b)
  unfolding serialize
  serialize-slots b sized =
      ap (λ z. write_digests z 0 b.digests) (headed b sized)
      ∙ write_digests_lem (concat (head_slots b)) 0 b.digests
          (length-head_slots b sized ∙ omega arith) sized.digest_sizes
      ∙ ap (λ z. concat (head_slots b) ++ z) (sym (append-nil (concat b.digests)))
      ∙ sym (concat-append (head_slots b) (concat b.digests ∷ []))
