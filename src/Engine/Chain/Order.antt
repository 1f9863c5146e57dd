-- ===== src/Engine/Chain/Order.antt =====
-- The greatest element, and sorting by LSN.
use pbsgui.Base.{
  All, Bool-cases, List, [], arith, false, inl, inr, leb, leb→le, leb→lt, some, sym, true, ℕ, ◌∷◌,
  ◌≡◌, ◌≤◌,
}
use mathlib.Core.List.{Perm}
use mathlib.Core.List.Perm
use mathlib.Core.Path.{subst}
use pbsgui.Engine.Chain.{
  ChainItem, max_from, max_by_time, first_of_range, insert_by_lsn, sort_by_lsn,
}

abbrev pub time_of : ChainItem → ℕ
time_of i = i.meta.backup_time

abbrev pub NotAfter : ℕ → ChainItem → Type 0
NotAfter t i = time_of i ≤ t

-- None of the list is later than `m`.
abbrev Greatest : List ChainItem → ChainItem → Type 0
Greatest xs m = All (NotAfter (time_of m)) xs

max_from-Greatest :
    (best : ChainItem) (is : List ChainItem)
    → (time_of best ≤ time_of (max_from best is)) × Greatest is (max_from best is)
unfolding max_from
max_from-Greatest best [] = (omega arith, tt)
max_from-Greatest best (i ∷ is) = elim (Bool-cases (leb (time_of best) (time_of i))) [
  | inl later ↦
      let (up, all_below) = max_from-Greatest i is in
      let e : max_from best (i ∷ is) ≡ max_from i is = rw later in
      subst (λ m. (time_of best ≤ time_of m) × Greatest (i ∷ is) m) (sym e)
        (omega (arith, leb→le _ _ later, up), (up, all_below))
  | inr earlier ↦
      let (up, all_below) = max_from-Greatest best is in
      let e : max_from best (i ∷ is) ≡ max_from best is = rw earlier in
      subst (λ m. (time_of best ≤ time_of m) × Greatest (i ∷ is) m) (sym e)
        (up, (omega (arith, leb→lt _ _ earlier, up), all_below))
]

max_from-All :
    (P : ChainItem → Type 0) (best : ChainItem) (is : List ChainItem)
    → P best
    → All P is
    → P (max_from best is)
unfolding max_from
max_from-All P best [] p h = p
max_from-All P best (i ∷ is) p h = elim (Bool-cases (leb (time_of best) (time_of i))) [
  | inl later ↦ rw later (max_from-All P i is h.0 h.1)
  | inr earlier ↦ rw earlier (max_from-All P best is p h.1)
]

-- The greatest element is one of the list, and none is later.
pub max_by_time_lem :
    (xs : List ChainItem) (m : ChainItem)
    → max_by_time xs ≡ some m
    → All (NotAfter (time_of m)) xs × ((P : ChainItem → Type 0) → All P xs → P m)
unfolding max_by_time
max_by_time_lem [] m e = cc
max_by_time_lem (i ∷ is) m e =
    let same : max_from i is ≡ m = cc in
    subst (λ k. Greatest (i ∷ is) k × ((P : ChainItem → Type 0) → All P (i ∷ is) → P k)) same
      (max_from-Greatest i is, λ P h. max_from-All P i is h.0 h.1)

-- Sorted by the start of the range: each element starts no later than those behind it.
abbrev StartsBy : ChainItem → ChainItem → Type 0
StartsBy x y = first_of_range x ≤ first_of_range y

abbrev pub IsSorted : List ChainItem → Type 0
IsSorted [] = Unit {0}
IsSorted (x ∷ xs) = All (StartsBy x) xs × IsSorted xs

StartsBy-trans :
    (x y : ChainItem) (zs : List ChainItem)
    → StartsBy x y
    → All (StartsBy y) zs
    → All (StartsBy x) zs
StartsBy-trans x y [] h a = tt
StartsBy-trans x y (z ∷ zs) h a = (omega (arith, h, a.0), StartsBy-trans x y zs h a.1)

pub insert_le :
    (x y : ChainItem) (ys : List ChainItem)
    → leb (first_of_range x) (first_of_range y) ≡ true
    → insert_by_lsn x (y ∷ ys) ≡ x ∷ y ∷ ys
unfolding insert_by_lsn
insert_le x y ys le = rw le

pub insert_gt :
    (x y : ChainItem) (ys : List ChainItem)
    → leb (first_of_range x) (first_of_range y) ≡ false
    → insert_by_lsn x (y ∷ ys) ≡ y ∷ insert_by_lsn x ys
unfolding insert_by_lsn
insert_gt x y ys gt = rw gt

insert-All :
    (P : ChainItem → Type 0) (x : ChainItem) (ys : List ChainItem)
    → P x
    → All P ys
    → All P (insert_by_lsn x ys)
insert-All P x [] p h = unfold insert_by_lsn in (p, tt)
insert-All P x (y ∷ ys) p h = elim (Bool-cases (leb (first_of_range x) (first_of_range y))) [
  | inl le ↦ subst (All P) (sym (insert_le x y ys le)) (p, h)
  | inr gt ↦ subst (All P) (sym (insert_gt x y ys gt)) (h.0, insert-All P x ys p h.1)
]

pub sort-All : (P : ChainItem → Type 0) (xs : List ChainItem) → All P xs → All P (sort_by_lsn xs)
unfolding sort_by_lsn
sort-All P [] h = tt
sort-All P (x ∷ xs) h = insert-All P x (sort_by_lsn xs) h.0 (sort-All P xs h.1)

insert-IsSorted :
    (x : ChainItem) (ys : List ChainItem) → IsSorted ys → IsSorted (insert_by_lsn x ys)
insert-IsSorted x [] h = unfold insert_by_lsn in (tt, tt)
insert-IsSorted x (y ∷ ys) h = elim (Bool-cases (leb (first_of_range x) (first_of_range y))) [
  | inl le ↦
      subst IsSorted (sym (insert_le x y ys le))
        ((leb→le _ _ le, StartsBy-trans x y ys (leb→le _ _ le) h.0), h)
  | inr gt ↦
      subst IsSorted (sym (insert_gt x y ys gt))
        (insert-All (StartsBy y) x ys (omega (arith, leb→lt _ _ gt)) h.0, insert-IsSorted x ys h.1)
]

pub sort-IsSorted : (xs : List ChainItem) → IsSorted (sort_by_lsn xs)
unfolding sort_by_lsn
sort-IsSorted [] = tt
sort-IsSorted (x ∷ xs) = insert-IsSorted x (sort_by_lsn xs) (sort-IsSorted xs)

insert-perm : (x : ChainItem) (ys : List ChainItem) → Perm (insert_by_lsn x ys) (x ∷ ys)
unfolding insert_by_lsn
insert-perm x [] = Perm.refl (x ∷ [])
insert-perm x (y ∷ ys) = elim (Bool-cases (leb (first_of_range x) (first_of_range y))) [
  | inl le ↦ rw le (Perm.refl (x ∷ y ∷ ys))
  | inr gt ↦ rw gt (Perm.trans (Perm.cons y (insert-perm x ys)) (Perm.swap x y ys))
]

pub sort-perm : (xs : List ChainItem) → Perm (sort_by_lsn xs) xs
unfolding sort_by_lsn
sort-perm [] = Perm.refl []
sort-perm (x ∷ xs) = Perm.trans (insert-perm x (sort_by_lsn xs)) (Perm.cons x (sort-perm xs))
