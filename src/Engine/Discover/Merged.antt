-- ===== src/Engine/Discover/Merged.antt =====
-- crates/pbsgui-engine/src/sql/discover.rs: what is left of the instances that are found more than once.
use pbsgui.Base.{
  All, All-map, Bool, Bool-cases, List, Option, Text, [], ap, concat, eq_ignore_ascii_case, false,
  if◌then◌else◌, inl, inr, list_eq, list_eq_iff, map, none, refl, some, sym, true, ◌++◌, ◌∙◌, ◌∷◌,
  ◌≡◌, ◌≢◌,
}
use mathlib.Core.Bool.{false≢true}
use mathlib.Core.Path.{subst}
use pbsgui.Engine.Ssrp.{expand_target}
use pbsgui.Engine.Discover.{discover}
use pbsgui.Engine.Discover.Order.{text_le_total, text_le_trans, text_le_antisym}
use pbsgui.Base.Maps.{list_eq_other}
use pbsgui.Engine.Discover.{
  SqlInstance, key, text_le, put_in_order, sort_by_server, dedup_behind, dedup,
}
use pbsgui.Engine.Discover.Order.{text_le_refl}

module _ {Probe : Type 0} where
  -- The first instance of that server, whose name is given in lower case.
  unfoldable pub first_of : Text → List (SqlInstance Probe) → Option (SqlInstance Probe)
  unfolding key
  first_of k [] = none
  first_of k (x ∷ xs) = if list_eq (key x) k then some x else first_of k xs

  -- Each server once, in the order of the names.
  abbrev pub IsAscending : List (SqlInstance Probe) → Type 0
  IsAscending [] = Unit {0}
  IsAscending (x ∷ xs) =
      All (λ y. (text_le (key x) (key y) ≡ true) × (key x ≢ key y)) xs × IsAscending xs

  abbrev IsSorted : List (SqlInstance Probe) → Type 0
  IsSorted [] = Unit {0}
  IsSorted (x ∷ xs) = All (λ y. text_le (key x) (key y) ≡ true) xs × IsSorted xs

  first_of-put_in_order :
      (k : Text) (i : SqlInstance Probe) (xs : List (SqlInstance Probe))
      → first_of k (put_in_order i xs) ≡ first_of k (i ∷ xs)
  unfolding first_of put_in_order
  first_of-put_in_order k i [] = refl
  first_of-put_in_order k i (x ∷ xs) = elim (Bool-cases (text_le (key i) (key x))) [
    | inl front ↦ rw front
    | inr behind ↦ elim (Bool-cases (list_eq (key x) k)) [
      | inr other ↦ rw (behind, other) (first_of-put_in_order k i xs)
      | inl hit ↦
          let apart : list_eq (key i) k ≡ false = list_eq_other (key i) k (λ same. false≢true (
            sym behind
            ∙ ap (λ t. text_le t (key x)) (same ∙ sym ((list_eq_iff (key x) k).0 hit))
            ∙ text_le_refl (key x))) in
          rw (behind, hit, apart)
    ]
  ]

  first_of-sort_by_server :
      (k : Text) (xs : List (SqlInstance Probe)) → first_of k (sort_by_server xs) ≡ first_of k xs
  unfolding first_of sort_by_server
  first_of-sort_by_server k [] = refl
  first_of-sort_by_server k (i ∷ xs) =
      first_of-put_in_order k i (sort_by_server xs)
      ∙ ap (λ o. if list_eq (key i) k then some i else o) (first_of-sort_by_server k xs)

  first_of-dedup_behind :
      (k : Text) (kept : SqlInstance Probe) (xs : List (SqlInstance Probe))
      → list_eq (key kept) k ≡ false
      → first_of k (dedup_behind kept xs) ≡ first_of k xs
  unfolding first_of dedup_behind eq_ignore_ascii_case key
  first_of-dedup_behind k kept [] other = refl
  first_of-dedup_behind k kept (x ∷ xs) other = elim (Bool-cases (list_eq (key x) (key kept))) [
    | inl same ↦
        let miss : list_eq (key x) k ≡ false =
          ap (λ t. list_eq t k) ((list_eq_iff (key x) (key kept)).0 same) ∙ other in
        rw (same, miss) (first_of-dedup_behind k kept xs other)
    | inr apart ↦ elim (Bool-cases (list_eq (key x) k)) [
      | inl hit ↦ rw (apart, hit)
      | inr miss ↦ rw (apart, miss) (first_of-dedup_behind k x xs miss)
    ]
  ]

  first_of-dedup :
      (k : Text) (xs : List (SqlInstance Probe)) → first_of k (dedup xs) ≡ first_of k xs
  unfolding first_of dedup
  first_of-dedup k [] = refl
  first_of-dedup k (x ∷ xs) = elim (Bool-cases (list_eq (key x) k)) [
    | inl hit ↦ rw hit
    | inr miss ↦ rw miss (first_of-dedup_behind k x xs miss)
  ]

  put_in_order-All :
      (P : SqlInstance Probe → Type 0) (i : SqlInstance Probe) (xs : List (SqlInstance Probe))
      → P i
      → All P xs
      → All P (put_in_order i xs)
  unfolding put_in_order
  put_in_order-All P i [] new all_ = (new, tt)
  put_in_order-All P i (x ∷ xs) new all_ = elim (Bool-cases (text_le (key i) (key x))) [
    | inl front ↦ rw front (new, all_)
    | inr behind ↦ rw behind (all_.0, put_in_order-All P i xs new all_.1)
  ]

  put_in_order-IsSorted :
      (i : SqlInstance Probe) (xs : List (SqlInstance Probe))
      → IsSorted xs
      → IsSorted (put_in_order i xs)
  unfolding put_in_order
  put_in_order-IsSorted i [] sorted = (tt, tt)
  put_in_order-IsSorted i (x ∷ xs) sorted = elim (Bool-cases (text_le (key i) (key x))) [
    | inl front ↦ rw front (
      (front, All-map xs (λ y h. text_le_trans (key i) (key x) (key y) front h) sorted.0),
      sorted,
    )
    | inr behind ↦ rw behind (
      put_in_order-All (λ y. text_le (key x) (key y) ≡ true) i xs
          (text_le_total (key i) (key x) behind) sorted.0,
      put_in_order-IsSorted i xs sorted.1,
    )
  ]

  sort_by_server-IsSorted : (xs : List (SqlInstance Probe)) → IsSorted (sort_by_server xs)
  unfolding sort_by_server
  sort_by_server-IsSorted [] = tt
  sort_by_server-IsSorted (i ∷ xs) =
      put_in_order-IsSorted i (sort_by_server xs) (sort_by_server-IsSorted xs)

  dedup_behind-All :
      (P : SqlInstance Probe → Type 0) (kept : SqlInstance Probe) (xs : List (SqlInstance Probe))
      → All P xs
      → All P (dedup_behind kept xs)
  unfolding dedup_behind eq_ignore_ascii_case key
  dedup_behind-All P kept [] all_ = tt
  dedup_behind-All P kept (x ∷ xs) all_ = elim (Bool-cases (list_eq (key x) (key kept))) [
    | inl same ↦ rw same (dedup_behind-All P kept xs all_.1)
    | inr apart ↦ rw apart (all_.0, dedup_behind-All P x xs all_.1)
  ]

  dedup_behind-IsAscending :
      (kept : SqlInstance Probe) (xs : List (SqlInstance Probe))
      → IsSorted (kept ∷ xs)
      → IsAscending (kept ∷ dedup_behind kept xs)
  unfolding dedup_behind eq_ignore_ascii_case key
  dedup_behind-IsAscending kept [] sorted = (tt, tt)
  dedup_behind-IsAscending kept (x ∷ xs) ((first, rest), sorted) =
      elim (Bool-cases (list_eq (key x) (key kept))) [
        | inl same ↦ rw same (dedup_behind-IsAscending kept xs (rest, sorted.1))
        | inr apart ↦
            let other : key kept ≢ key x =
              λ e. false≢true (sym apart ∙ (list_eq_iff (key x) (key kept)).1 (sym e)) in
            let beyond : (y : SqlInstance Probe)
                → text_le (key x) (key y) ≡ true
                → (text_le (key kept) (key y) ≡ true) × (key kept ≢ key y) =
              λ y more. (
                text_le_trans (key kept) (key x) (key y) first more,
                λ e. other (
                    text_le_antisym (key kept) (key x) first
                      (subst (λ t. text_le (key x) t ≡ true) (sym e) more)),
              ) in
            rw apart (
              ((first, other), dedup_behind-All _ x xs (All-map xs beyond sorted.0)),
              dedup_behind-IsAscending x xs sorted,
            )
      ]

  dedup-IsAscending : (xs : List (SqlInstance Probe)) → IsSorted xs → IsAscending (dedup xs)
  unfolding dedup
  dedup-IsAscending [] sorted = tt
  dedup-IsAscending (x ∷ xs) sorted = dedup_behind-IsAscending x xs sorted

  -- Every server is listed once, in the order of the names, whose case does not count; and the entry of a server is the
  -- first that was found: that of the local registry before those of the broadcast, and these before those of the scan,
  -- which are asked for only where the network is included.
  pub discover-IsAscending :
      (local_instances broadcast : List (SqlInstance Probe))
      (scan : List Text → List (SqlInstance Probe)) (include_network : Bool) (targets : List Text)
      (name : Text)
      → let found = discover local_instances broadcast scan include_network targets in
        let everywhere =
          local_instances ++ broadcast ++ scan (concat (map expand_target targets)) in
        IsAscending found
        × (first_of name found
            ≡ first_of name (if include_network then everywhere else local_instances))
  unfolding discover
  discover-IsAscending local_instances broadcast scan include_network targets name =
      let everywhere = local_instances ++ broadcast ++ scan (concat (map expand_target targets)) in
      let instances = if include_network then everywhere else local_instances in
      (
        dedup-IsAscending (sort_by_server instances) (sort_by_server-IsSorted instances),
        first_of-dedup name (sort_by_server instances) ∙ first_of-sort_by_server name instances,
      )
