-- ===== src/Engine/Chain/Covers.antt =====
-- When `chain_covers` accepts the chain that `select_chain` gives.
use pbsgui.Base.{
  Bool, Bool-cases, List, Option-cases, [], any, ap, arith, false, filter, inl, inr, leb, none,
  refl, some, sym, ℕ, ◌||◌, ◌∙◌, ◌∷◌, ◌≡◌,
}
use pbsgui.Engine.Chain.{
  ChainItem, extends, parse_lsn, until_reached, eligible_logs, latest_full, select_chain,
  chain_covers, insert_by_lsn, sort_by_lsn, first_of_range,
}
use pbsgui.Engine.Chain.Select.{
  select_chain-some, select_chain-none, until_reached-reached, until_reached-short,
}
use pbsgui.Engine.Chain.Order.{time_of, insert_le, insert_gt}

-- Whether an item finishes at the target or later.
abbrev pub reaches : ℕ → ChainItem → Bool
reaches target i = leb target (time_of i)

-- A base with these logs behind it reaches the target: by one of the logs, or by itself where
-- there is none.
abbrev pub can_reach : ℕ → ChainItem → List ChainItem → Bool
can_reach target base [] = reaches target base
can_reach target base (x ∷ xs) = any (reaches target) (x ∷ xs)

chain_covers-cons :
    (target : ℕ) (a x : ChainItem) (xs : List ChainItem)
    → chain_covers (a ∷ x ∷ xs) target ≡ chain_covers (x ∷ xs) target
unfolding chain_covers
chain_covers-cons target a x xs = refl

covers_until :
    (target : ℕ) (base : ChainItem) (xs : List ChainItem)
    → chain_covers (base ∷ until_reached target xs) target ≡ can_reach target base xs
covers_until target base [] = unfold chain_covers until_reached in refl
covers_until target base (x ∷ xs) = elim (Bool-cases (reaches target x)) [
  | inl hit ↦
      ap (λ l. chain_covers (base ∷ l) target) (until_reached-reached target x xs hit)
      ∙ unfold chain_covers in (rw hit)
  | inr miss ↦
      ap (λ l. chain_covers (base ∷ l) target) (until_reached-short target x xs miss)
      ∙ chain_covers-cons target base x (until_reached target xs)
      ∙ covers_until target x xs
      ∙ passed x xs miss
]
  where
    passed :
        (y : ChainItem) (ys : List ChainItem)
        → reaches target y ≡ false
        → can_reach target y ys ≡ any (reaches target) (y ∷ ys)
    passed y [] miss = rw miss
    passed y (z ∷ zs) miss = rw miss

any-insert :
    (p : ChainItem → Bool) (x : ChainItem) (ys : List ChainItem)
    → any p (insert_by_lsn x ys) ≡ (p x || any p ys)
any-insert p x [] = unfold insert_by_lsn in refl
any-insert p x (y ∷ ys) = elim (Bool-cases (leb (first_of_range x) (first_of_range y))) [
  | inl le ↦ ap (any p) (insert_le x y ys le)
  | inr gt ↦
      ap (any p) (insert_gt x y ys gt)
      ∙ ap (λ b. p y || b) (any-insert p x ys)
      ∙ swap (p x) (p y) (any p ys)
]
  where
    swap : (a b r : Bool) → (b || (a || r)) ≡ (a || (b || r))
    swap a b r = ground arith

any-sort : (p : ChainItem → Bool) (xs : List ChainItem) → any p (sort_by_lsn xs) ≡ any p xs
unfolding sort_by_lsn
any-sort p [] = refl
any-sort p (x ∷ xs) = any-insert p x (sort_by_lsn xs) ∙ ap (λ b. p x || b) (any-sort p xs)

insert-cons :
    (x : ChainItem) (ys : List ChainItem)
    → (z : ChainItem) × (zs : List ChainItem) × (insert_by_lsn x ys ≡ z ∷ zs)
insert-cons x [] = unfold insert_by_lsn in (x, [], refl)
insert-cons x (y ∷ ys) = elim (Bool-cases (leb (first_of_range x) (first_of_range y))) [
  | inl le ↦ (x, y ∷ ys, insert_le x y ys le)
  | inr gt ↦ (y, insert_by_lsn x ys, insert_gt x y ys gt)
]

can_reach-sort :
    (target : ℕ) (base : ChainItem) (xs : List ChainItem)
    → can_reach target base (sort_by_lsn xs) ≡ can_reach target base xs
can_reach-sort target base [] = unfold sort_by_lsn in refl
can_reach-sort target base (x ∷ xs) =
    let (z, zs, e) = insert-cons x (sort_by_lsn xs) in
    ap (can_reach target base) (sorted ∙ e)
    ∙ ap (any (reaches target)) (sym (sorted ∙ e))
    ∙ any-sort (reaches target) (x ∷ xs)
  where
    sorted : sort_by_lsn (x ∷ xs) ≡ insert_by_lsn x (sort_by_lsn xs)
    sorted = unfold sort_by_lsn in refl

-- The chain that is selected covers the target exactly where the items allow it: there is a full at
-- the target or before, and some log whose range ends past the latest such full finishes at the
-- target or later, or there is no such log and the full itself finishes at the target.
pub chain_covers-select_chain :
    (items : List ChainItem) (target : ℕ)
    → chain_covers (select_chain items target) target ≡ (elim (latest_full items target) [
      | none ↦ false
      | some base ↦ can_reach target base (filter (extends (parse_lsn base.meta.last_lsn)) items)
    ])
chain_covers-select_chain items target = elim (Option-cases (latest_full items target)) [
  | inl missing ↦ rw missing (
      ap (λ c. chain_covers c target) (select_chain-none items target missing)
      ∙ unfold chain_covers in refl)
  | inr (base, found) ↦ rw found (
      ap (λ c. chain_covers c target) (select_chain-some items target base found)
      ∙ covers_until target base (eligible_logs items base)
      ∙ (unfold eligible_logs in
          (can_reach-sort target base (filter (extends (parse_lsn base.meta.last_lsn)) items))))
]
