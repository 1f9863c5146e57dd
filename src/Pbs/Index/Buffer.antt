-- ===== src/Pbs/Index/Buffer.antt =====
-- The zero-filled buffer that an index is written into, as a row of slots.
use pbsgui.Base.{
  HasLength, List, [], ap, arith, concat, copy_at, copy_at_slot, length, length-append,
  length-replicate, map, refl, replicate, replicate_add, sym, ℕ, ◌++◌, ◌+◌, ◌∙◌, ◌∷◌, ◌≡◌,
}
use pbsgui.Base.Bytes.{Bytes, to_le, length-to_le}
use pbsgui.Pbs.Index.{write_header}

abbrev pub zeros : ℕ → Bytes
zeros n = replicate n 0

abbrev pub sum : List ℕ → ℕ
sum [] = 0
sum (n ∷ ns) = n + sum ns

pub zeros_split : (m n k : ℕ) → k ≡ m + n → zeros k ≡ zeros m ++ zeros n
zeros_split m n k e = rw e (replicate_add m n 0)

-- A buffer of zeros, split into slots of the given sizes.
pub zeros_slots : (ns : List ℕ) → zeros (sum ns) ≡ concat (map zeros ns)
unfolding replicate
zeros_slots [] = refl
zeros_slots (n ∷ ns) = replicate_add n (sum ns) 0 ∙ ap (λ r. zeros n ++ r) (zeros_slots ns)

-- The length of a row of slots.
pub length-slots : (xss : List Bytes) → length (concat xss) ≡ sum (map length xss)
length-slots [] = refl
length-slots (x ∷ xss) = omega (arith, length-append x (concat xss), length-slots xss)

pub length-zeros : (n : ℕ) → length (zeros n) ≡ n
length-zeros n = length-replicate n 0

abbrev pub header_slots : Bytes → Bytes → ℕ → Bytes → List Bytes
header_slots magic uuid ctime csum = magic ∷ uuid ∷ to_le 8 ctime ∷ csum ∷ []

module _ (magic uuid csum : Bytes) (ctime : ℕ) (magic_size : HasLength 8 magic)
    (uuid_size : HasLength 16 uuid) (csum_size : HasLength 32 csum) where
  pub length-header_slots : length (concat (header_slots magic uuid ctime csum)) ≡ 64
  length-header_slots = omega (
    arith,
    magic_size,
    uuid_size,
    csum_size,
    length-to_le 8 ctime,
    length-slots (header_slots magic uuid ctime csum),
  )

  -- The header fields land in their slots, and the rest of the buffer stays.
  pub write_header_slots :
      (rest : List Bytes)
      → write_header (concat (zeros 8 ∷ zeros 16 ∷ zeros 8 ∷ zeros 32 ∷ rest)) magic uuid ctime csum
        ≡ concat (header_slots magic uuid ctime csum ++ rest)
  unfolding write_header
  write_header_slots rest =
      ap (λ b. copy_at (copy_at (copy_at b 8 uuid) 24 (to_le 8 ctime)) 32 csum)
        (copy_at_slot [] (zeros 8) (zeros 16 ∷ zeros 8 ∷ zeros 32 ∷ rest) magic 0 refl
          (length-zeros 8 ∙ sym magic_size))
      ∙ ap (λ b. copy_at (copy_at b 24 (to_le 8 ctime)) 32 csum)
          (copy_at_slot (magic ∷ []) (zeros 16) (zeros 8 ∷ zeros 32 ∷ rest) uuid 8
            (omega (arith, length-slots (magic ∷ []), magic_size))
            (length-zeros 16 ∙ sym uuid_size))
      ∙ ap (λ b. copy_at b 32 csum)
          (copy_at_slot (magic ∷ uuid ∷ []) (zeros 8) (zeros 32 ∷ rest) (to_le 8 ctime) 24 two_slots
            (length-zeros 8 ∙ sym (length-to_le 8 ctime)))
      ∙ copy_at_slot (magic ∷ uuid ∷ to_le 8 ctime ∷ []) (zeros 32) rest csum 32 three_slots
          (length-zeros 32 ∙ sym csum_size)
    where
      two_slots : length (concat (magic ∷ uuid ∷ [])) ≡ 24
      two_slots = omega (arith, length-slots (magic ∷ uuid ∷ []), magic_size, uuid_size)

      three_slots : length (concat (magic ∷ uuid ∷ to_le 8 ctime ∷ [])) ≡ 32
      three_slots = omega (
        arith,
        length-slots (magic ∷ uuid ∷ to_le 8 ctime ∷ []),
        magic_size,
        uuid_size,
        length-to_le 8 ctime,
      )
