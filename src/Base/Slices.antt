-- ===== src/Base/Slices.antt =====
-- Slices of byte arrays: `v[i..j]`, `v[i..j].copy_from_slice(s)` and `chunks_exact`.
use Prim.Native.Nat.{ℕ, zero, suc, ◌+◌, ◌-◌, ◌*◌, ◌/◌, ◌%◌, ◌≤◌, ◌<◌}
use mathlib.Core.Path.{◌≡◌, refl, ap, ap₂, sym, ◌∙◌}
use mathlib.Core.List.{List, [], ◌∷◌, ◌++◌, append_assoc}
use native.Mathlib.Omega.{arith}
use native.Mathlib.Nat.{div-eq_of_eq-mul_left, div-add-mod'}
use pbsgui.Base.Lists.{
  length, take, drop, concat, concat-append, All, HasLength, length-append, length-take,
  length-drop, take-append, drop-append, take-append-drop,
}

module _ {ℓ} {A : Type ℓ} where
  -- `v[i..j]`; every use in the source has `i ≤ j ≤ v.len()`.
  abbrev pub slice : ℕ → ℕ → List A → List A
  slice i j xs = take (j - i) (drop i xs)

  -- `v[pos..pos + src.len()].copy_from_slice(src)`, in range.
  pub copy_at : List A → ℕ → List A → List A
  copy_at out pos src = take pos out ++ (src ++ drop (pos + length src) out)

  -- `v.chunks_exact(n)` yields `v.len() / n` pieces; the first argument counts them.
  unfoldable pub pieces : ℕ → ℕ → List A → List (List A)
  pieces zero n xs = []
  pieces (suc c) n xs = take n xs ∷ pieces c n (drop n xs)

  pub chunks_exact : ℕ → List A → List (List A)
  chunks_exact n xs = pieces (length xs / n) n xs

  -- Writing over the middle of three parts.
  pub copy_at-middle :
      (pre mid post src : List A) (pos : ℕ)
      → length pre ≡ pos
      → length mid ≡ length src
      → copy_at (pre ++ (mid ++ post)) pos src ≡ pre ++ (src ++ post)
  unfolding copy_at
  copy_at-middle pre mid post src pos hp hm =
      ap₂ (λ a b. a ++ (src ++ b)) (take-append pre (mid ++ post) pos hp)
        (ap (drop (pos + length src)) (sym (append_assoc pre mid post))
          ∙ drop-append (pre ++ mid) post (pos + length src) (omega (arith, length-append pre mid)))

  -- The slice that is the middle of three parts.
  pub slice-middle :
      (pre mid post : List A) (i j : ℕ)
      → length pre ≡ i
      → length mid + i ≡ j
      → slice i j (pre ++ (mid ++ post)) ≡ mid
  slice-middle pre mid post i j hi hj =
      ap (take (j - i)) (drop-append pre (mid ++ post) i hi)
      ∙ take-append mid post (j - i) (omega arith)

  -- The same of a buffer that is a row of slots.
  pub copy_at_slot :
      (pre : List (List A)) (mid : List A) (post : List (List A)) (src : List A) (pos : ℕ)
      → length (concat pre) ≡ pos
      → length mid ≡ length src
      → copy_at (concat (pre ++ mid ∷ post)) pos src ≡ concat (pre ++ src ∷ post)
  copy_at_slot pre mid post src pos hp hm =
      ap (λ b. copy_at b pos src) (concat-append pre (mid ∷ post))
      ∙ copy_at-middle (concat pre) mid (concat post) src pos hp hm
      ∙ sym (concat-append pre (src ∷ post))

  pub slice_slot :
      (pre : List (List A)) (mid : List A) (post : List (List A)) (i j : ℕ)
      → length (concat pre) ≡ i
      → length mid + i ≡ j
      → slice i j (concat (pre ++ mid ∷ post)) ≡ mid
  slice_slot pre mid post i j hi hj =
      ap (slice i j) (concat-append pre (mid ∷ post))
      ∙ slice-middle (concat pre) mid (concat post) i j hi hj

  pub drop_slots :
      (pre post : List (List A)) (n : ℕ)
      → length (concat pre) ≡ n
      → drop n (concat (pre ++ post)) ≡ concat post
  drop_slots pre post n h =
      ap (drop n) (concat-append pre post) ∙ drop-append (concat pre) (concat post) n h

  pub length-copy_at :
      (out src : List A) (pos : ℕ)
      → pos + length src ≤ length out
      → length (copy_at out pos src) ≡ length out
  unfolding copy_at
  length-copy_at out src pos h = omega (
    arith,
    length-append (take pos out) (src ++ drop (pos + length src) out),
    length-append src (drop (pos + length src) out),
    length-take pos out,
    length-drop (pos + length src) out,
  )

  pub length-slice : (i j : ℕ) (xs : List A) → i ≤ j → j ≤ length xs → length (slice i j xs) ≡ j - i
  length-slice i j xs h k = omega (arith, length-take (j - i) (drop i xs), length-drop i xs)

  pub length-pieces : (c n : ℕ) (xs : List A) → length (pieces c n xs) ≡ c
  unfolding pieces
  length-pieces zero n xs = refl
  length-pieces (suc c) n xs = ap suc (length-pieces c n (drop n xs))

  pub pieces-HasLength :
      (c n : ℕ) (xs : List A) → c * n ≤ length xs → All (HasLength n) (pieces c n xs)
  unfolding pieces
  pieces-HasLength zero n xs h = tt
  pieces-HasLength (suc c) n xs h = (
    omega (arith, length-take n xs),
    pieces-HasLength c n (drop n xs) (omega (arith, length-drop n xs)),
  )

  -- Pieces that use up the list put it back together.
  pub concat-pieces : (c n : ℕ) (xs : List A) → length xs ≡ c * n → concat (pieces c n xs) ≡ xs
  unfolding pieces
  concat-pieces zero n [] h = refl
  concat-pieces zero n (x ∷ xs) h = absurd (omega arith)
  concat-pieces (suc c) n xs h =
      ap (λ r. take n xs ++ r) (concat-pieces c n (drop n xs) (omega (arith, length-drop n xs)))
      ∙ take-append-drop n xs

  pub length-concat :
      (n : ℕ) (xss : List (List A)) → All (HasLength n) xss → length (concat xss) ≡ length xss * n
  length-concat n [] h = omega arith
  length-concat n (x ∷ xss) h =
      omega (arith, h.0, length-append x (concat xss), length-concat n xss h.1)

  pieces-concat :
      (n : ℕ) (xss : List (List A))
      → All (HasLength n) xss
      → pieces (length xss) n (concat xss) ≡ xss
  unfolding pieces
  pieces-concat n [] h = refl
  pieces-concat n (x ∷ xss) h =
      ap₂ (λ a b. a ∷ b) (take-append x (concat xss) n h.0)
        (ap (pieces (length xss) n) (drop-append x (concat xss) n h.0) ∙ pieces-concat n xss h.1)

  -- Splitting a concatenation of pieces of one length gives the pieces back.
  pub chunks_exact-concat :
      (n : ℕ) (xss : List (List A))
      → 0 < n
      → All (HasLength n) xss
      → chunks_exact n (concat xss) ≡ xss
  unfolding chunks_exact
  chunks_exact-concat n xss pos h =
      ap (λ c. pieces c n (concat xss)) (div-eq_of_eq-mul_left pos (length-concat n xss h))
      ∙ pieces-concat n xss h

  -- A list whose length is a multiple of `n` is exactly its pieces.
  pub chunks_exact_whole :
      (n : ℕ) (xs : List A)
      → length xs % n ≡ 0
      → (length (chunks_exact n xs) * n ≡ length xs)
        × All (HasLength n) (chunks_exact n xs)
        × (concat (chunks_exact n xs) ≡ xs)
  unfolding chunks_exact
  chunks_exact_whole n xs h =
      let c : ℕ = length xs / n in
      let e : length xs ≡ c * n = omega (arith, div-add-mod' (length xs) n) in
      (
        omega (arith, ap (λ (k : ℕ). k * n) (length-pieces c n xs), e),
        pieces-HasLength c n xs (omega (arith, e)),
        concat-pieces c n xs e,
      )
