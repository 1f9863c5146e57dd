-- ===== src/Engine/Chain/Select.antt =====
-- What `select_chain` selects.
use pbsgui.Base.{
  All, All-filter, Bool-cases, List, Option-cases, [], ap, arith, false, filter, filter_passes, inl,
  inr, leb, leb→le, leb→lt, none, refl, some, sym, true, ℕ, ◌++◌, ◌<◌, ◌∙◌, ◌∷◌, ◌≡◌, ◌≤◌, ◌⊎◌,
}
use mathlib.Core.List.{Perm, Mem, mem-cons_self, mem-cons_of_mem}
use mathlib.Core.Path.{subst, subst₂}
use pbsgui.Engine.Chain.{
  ChainItem, is_log, is_full_before, extends, parse_lsn, until_reached, eligible_logs, latest_full,
  select_chain, sort_by_lsn,
}
use pbsgui.Engine.Chain.Order.{
  time_of, NotAfter, max_by_time_lem, IsSorted, sort-IsSorted, sort-perm,
}

-- Where the logs of a chain end: all but the last finish before the target, and logs are left out
-- behind the last only if it reaches the target.
abbrev pub Stops : ℕ → List ChainItem → List ChainItem → Type 0
Stops target [] rest = rest ≡ []
Stops target (x ∷ []) rest = (rest ≡ []) ⊎ (target ≤ time_of x)
Stops target (x ∷ y ∷ xs) rest = (time_of x < target) × Stops target (y ∷ xs) rest

-- A front of the list that stops where it should.
abbrev StopsIn : ℕ → List ChainItem → List ChainItem → Type 0
StopsIn target xs front = (rest : List ChainItem) × (xs ≡ front ++ rest) × Stops target front rest

pub until_reached-reached :
    (target : ℕ) (x : ChainItem) (xs : List ChainItem)
    → leb target (time_of x) ≡ true
    → until_reached target (x ∷ xs) ≡ x ∷ []
unfolding until_reached
until_reached-reached target x xs e = rw e

pub until_reached-short :
    (target : ℕ) (x : ChainItem) (xs : List ChainItem)
    → leb target (time_of x) ≡ false
    → until_reached target (x ∷ xs) ≡ x ∷ until_reached target xs
unfolding until_reached
until_reached-short target x xs e = rw e

Stops-cons :
    (target : ℕ) (x : ChainItem) (front rest : List ChainItem)
    → time_of x < target
    → Stops target front rest
    → Stops target (x ∷ front) rest
Stops-cons target x [] rest short s = inl s
Stops-cons target x (y ∷ ys) rest short s = (short, s)

until_reached-StopsIn :
    (target : ℕ) (xs : List ChainItem) → StopsIn target xs (until_reached target xs)
until_reached-StopsIn target [] = unfold until_reached in ([], refl, refl)
until_reached-StopsIn target (x ∷ xs) = elim (Bool-cases (leb target (time_of x))) [
  | inl reached ↦
      subst (StopsIn target (x ∷ xs)) (sym (until_reached-reached target x xs reached))
        (xs, refl, inr (leb→le _ _ reached))
  | inr short ↦
      let (rest, e, s) = until_reached-StopsIn target xs in
      subst (StopsIn target (x ∷ xs)) (sym (until_reached-short target x xs short)) (
        rest,
        ap (λ r. x ∷ r) e,
        Stops-cons target x (until_reached target xs) rest (leb→lt _ _ short) s,
      )
]

-- What makes `base ∷ logs` the chain for a target.
pub record IsChain (items : List ChainItem) (target : ℕ) (base : ChainItem)
    (logs rest : List ChainItem) : Type 0 where
  pub base_item : Mem base items
  pub base_full : is_log base.meta ≡ false
  pub base_before : time_of base ≤ target
  pub base_latest : All (NotAfter (time_of base)) (filter (is_full_before target) items)
  pub logs_eligible : Perm (logs ++ rest) (filter (extends (parse_lsn base.meta.last_lsn)) items)
  pub logs_sorted : IsSorted (logs ++ rest)
  pub logs_stop : Stops target logs rest

All-mem : (xs : List ChainItem) → All (λ x. Mem x xs) xs
All-mem xs = within xs xs (λ x h. h)
  where
    within :
        (ys zs : List ChainItem) → ((x : ChainItem) → Mem x ys → Mem x zs) → All (λ x. Mem x zs) ys
    within [] zs h = tt
    within (y ∷ ys) zs h = (h y mem-cons_self, within ys zs (λ x m. h x (mem-cons_of_mem y m)))

full_before-checks :
    (target : ℕ) (i : ChainItem)
    → is_full_before target i ≡ true
    → (is_log i.meta ≡ false) × (time_of i ≤ target)
unfolding is_full_before
full_before-checks target i h = ground arith

pub select_chain-some :
    (items : List ChainItem) (target : ℕ) (base : ChainItem)
    → latest_full items target ≡ some base
    → select_chain items target ≡ base ∷ until_reached target (eligible_logs items base)
unfolding select_chain
select_chain-some items target base e = rw (e, select_chain)

-- Without a full at the target or before, the chain is empty.
pub select_chain-none :
    (items : List ChainItem) (target : ℕ)
    → latest_full items target ≡ none
    → select_chain items target ≡ []
unfolding select_chain
select_chain-none items target e = rw (e, select_chain)

IsChain-latest :
    (items : List ChainItem) (target : ℕ) (base : ChainItem)
    → latest_full items target ≡ some base
    → (rest : List ChainItem) × IsChain items target base
        (until_reached target (eligible_logs items base))
        rest
unfolding latest_full eligible_logs
IsChain-latest items target base e =
    let fulls : List ChainItem = filter (is_full_before target) items in
    let (latest, among) = max_by_time_lem fulls base e in
    let (is_full, before) =
      full_before-checks target base (
        among (λ i. is_full_before target i ≡ true)
          (filter_passes (is_full_before target) items)) in
    let logs : List ChainItem = filter (extends (parse_lsn base.meta.last_lsn)) items in
    let (rest, split, stops) = until_reached-StopsIn target (sort_by_lsn logs) in
    (
      rest,
      record {
        base_item =
            among (λ i. Mem i items)
              (All-filter (λ i. Mem i items) (is_full_before target) items (All-mem items));
        base_full = is_full;
        base_before = before;
        base_latest = latest;
        logs_eligible = subst (λ l. Perm l logs) split (sort-perm logs);
        logs_sorted = subst IsSorted split (sort-IsSorted logs);
        logs_stop = stops;
      },
    )

-- A chain that `select_chain` gives starts with the latest full that finished at the target or
-- before; its logs are eligible ones (of a range that ends past the full), sorted by the start of
-- their range, each but the last finishing before the target; and an eligible log is left out only
-- behind one that reaches the target.
pub select_chain-IsChain :
    (items : List ChainItem) (target : ℕ) (base : ChainItem) (logs : List ChainItem)
    → select_chain items target ≡ base ∷ logs
    → (rest : List ChainItem) × IsChain items target base logs rest
select_chain-IsChain items target base logs e = elim (Option-cases (latest_full items target)) [
  | inl missing ↦ cc (select_chain-none items target missing)
  | inr (found, f) ↦
      let same : found ∷ until_reached target (eligible_logs items found) ≡ base ∷ logs =
        sym (select_chain-some items target found f) ∙ e in
      let (rest, chain) = IsChain-latest items target found f in
      let head_eq : found ≡ base = cc in
      let tail_eq : until_reached target (eligible_logs items found) ≡ logs = cc in
      (rest, subst₂ (λ b l. IsChain items target b l rest) head_eq tail_eq chain)
]
