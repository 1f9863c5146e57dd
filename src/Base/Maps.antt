-- ===== src/Base/Maps.antt =====
-- A `HashMap` with texts as keys, as the list of its entries.
use mathlib.Core.Path.{◌≡◌, refl, ap, ap₂, sym, subst, ◌∙◌}
use mathlib.Core.Logic.{◌≢◌, inl, inr}
use mathlib.Core.Bool.{false, false≢true}
use mathlib.Core.Option.{Option, none, some, none-ne-some}
use mathlib.Core.List.{List, [], ◌∷◌}
use pbsgui.Base.Tests.{Bool-cases, list_eq, list_eq_iff, list_eq_refl, if◌then◌else◌}
use pbsgui.Base.Lists.{All, All-map}
use pbsgui.Base.Texts.{Text}

abbrev pub Entries {ℓ} : Type ℓ → Type ℓ
Entries V = List (Text × V)

-- Another key than the one looked for.
pub list_eq_other : (a b : Text) → a ≢ b → list_eq a b ≡ false
list_eq_other a b apart = elim (Bool-cases (list_eq a b)) [
  | inl same ↦ absurd (apart ((list_eq_iff a b).0 same))
  | inr other ↦ other
]

pub same_some {ℓ} : {A : Type ℓ} {a b : A} → ◌≡◌ {A = Option A} (some a) (some b) → a ≡ b
same_some e = cc

module _ {ℓ} {V : Type ℓ} where
  unfoldable pub lookup : Text → Entries V → Option V
  lookup key [] = none
  lookup key ((k, v) ∷ rest) = if list_eq k key then some v else lookup key rest

  unfoldable pub remove_key : Text → Entries V → Entries V
  remove_key key [] = []
  remove_key key ((k, v) ∷ rest) =
      let kept = remove_key key rest in if list_eq k key then kept else (k, v) ∷ kept

  unfoldable pub insert_key : Text → V → Entries V → Entries V
  unfolding remove_key
  insert_key key v entries = (key, v) ∷ remove_key key entries

  -- `if let Some(v) = map.get_mut(key) { … }`
  unfoldable pub update_key : Text → (V → V) → Entries V → Entries V
  update_key key f [] = []
  update_key key f ((k, v) ∷ rest) =
      let changed = update_key key f rest in
      if list_eq k key then (k, f v) ∷ rest else (k, v) ∷ changed

  pub lookup-insert_key :
      (key : Text) (v : V) (entries : Entries V) → lookup key (insert_key key v entries) ≡ some v
  unfolding lookup insert_key
  lookup-insert_key key v entries = rw (list_eq_refl key)

  pub lookup-remove_key :
      (key : Text) (entries : Entries V) → lookup key (remove_key key entries) ≡ none
  unfolding lookup remove_key
  lookup-remove_key key [] = refl
  lookup-remove_key key ((k, v) ∷ rest) = elim (Bool-cases (list_eq k key)) [
    | inl hit ↦ rw (hit, lookup-remove_key key rest)
    | inr miss ↦ rw (miss, miss, lookup-remove_key key rest)
  ]

  pub lookup-update_key :
      (key : Text) (f : V → V) (v : V) (entries : Entries V)
      → lookup key entries ≡ some v
      → lookup key (update_key key f entries) ≡ some (f v)
  unfolding lookup update_key
  lookup-update_key key f v [] found = absurd (none-ne-some v found)
  lookup-update_key key f v ((k, w) ∷ rest) found = elim (Bool-cases (list_eq k key)) [
    | inl hit ↦
        rw (hit, hit)
          (ap (λ o. elim o [ none ↦ some (f v) | some u ↦ some (f u) ]) (rw (hit, lookup) at found))
    | inr miss ↦ rw (miss, miss) (lookup-update_key key f v rest (rw (miss, lookup) at found))
  ]

  -- What holds of every entry holds of those that are kept, and of the one that is found.
  pub All-remove_key {κ} :
      (P : Text × V → Type κ) (key : Text) (entries : Entries V)
      → All P entries
      → All P (remove_key key entries)
  unfolding remove_key
  All-remove_key P key [] all = tt
  All-remove_key P key ((k, v) ∷ rest) all = elim (Bool-cases (list_eq k key)) [
    | inl hit ↦ rw hit (All-remove_key P key rest all.1)
    | inr miss ↦ rw miss (all.0, All-remove_key P key rest all.1)
  ]

  pub All-insert_key {κ} :
      (P : Text × V → Type κ) (key : Text) (v : V) (entries : Entries V)
      → P (key, v)
      → All P entries
      → All P (insert_key key v entries)
  unfolding insert_key
  All-insert_key P key v entries new all = (new, All-remove_key P key entries all)

  -- The entries that are kept are those of other keys.
  pub All-remove_key_other {κ} :
      (P : Text × V → Type κ) (key : Text) (entries : Entries V)
      → All (λ e. e.0 ≢ key → P e) entries
      → All P (remove_key key entries)
  unfolding remove_key
  All-remove_key_other P key [] all = tt
  All-remove_key_other P key ((k, v) ∷ rest) all = elim (Bool-cases (list_eq k key)) [
    | inl hit ↦ rw hit (All-remove_key_other P key rest all.1)
    | inr miss ↦
        let apart : k ≢ key = λ e. absurd (false≢true (sym miss ∙ (list_eq_iff k key).1 e)) in
        rw miss (all.0 apart, All-remove_key_other P key rest all.1)
  ]

  pub All-lookup {κ} :
      (P : Text × V → Type κ) (key : Text) (v : V) (entries : Entries V)
      → All P entries
      → lookup key entries ≡ some v
      → P (key, v)
  unfolding lookup
  All-lookup P key v [] all found = absurd (none-ne-some v found)
  All-lookup P key v ((k, w) ∷ rest) all found = elim (Bool-cases (list_eq k key)) [
    | inl hit ↦
        let same : (k, w) ≡ (key, v) =
          ap₂ (λ a b. (a, b)) ((list_eq_iff k key).0 hit) (same_some (rw (hit, lookup) at found)) in
        subst P same all.0
    | inr miss ↦ All-lookup P key v rest all.1 (rw (miss, lookup) at found)
  ]

  pub lookup-remove_key_other :
      (key other : Text) (entries : Entries V)
      → other ≢ key
      → lookup other (remove_key key entries) ≡ lookup other entries
  unfolding lookup remove_key
  lookup-remove_key_other key other [] apart = refl
  lookup-remove_key_other key other ((k, v) ∷ rest) apart = elim (Bool-cases (list_eq k key)) [
    | inl hit ↦
        let miss : list_eq k other ≡ false =
          list_eq_other k other (λ e. apart (sym e ∙ (list_eq_iff k key).0 hit)) in
        rw (hit, miss) (lookup-remove_key_other key other rest apart)
    | inr kept ↦ rw (kept, lookup-remove_key_other key other rest apart)
  ]

  pub lookup-insert_key_other :
      (key other : Text) (v : V) (entries : Entries V)
      → other ≢ key
      → lookup other (insert_key key v entries) ≡ lookup other entries
  unfolding lookup insert_key
  lookup-insert_key_other key other v entries apart =
      rw (list_eq_other key other (λ e. apart (sym e)))
        (lookup-remove_key_other key other entries apart)

  -- Every entry is the one that its key finds, so no key stands twice.
  abbrev pub IsKeyed : Entries V → Type ℓ
  IsKeyed entries = All (λ e. lookup e.0 entries ≡ some e.1) entries

  pub remove_key-IsKeyed :
      (key : Text) (entries : Entries V) → IsKeyed entries → IsKeyed (remove_key key entries)
  remove_key-IsKeyed key entries keyed = All-remove_key_other _ key entries (
      All-map entries (λ e found apart. lookup-remove_key_other key e.0 entries apart ∙ found)
        keyed)

  pub insert_key-IsKeyed :
      (key : Text) (v : V) (entries : Entries V)
      → IsKeyed entries
      → IsKeyed (insert_key key v entries)
  unfolding insert_key
  insert_key-IsKeyed key v entries keyed = (
    lookup-insert_key key v entries,
    All-remove_key_other _ key entries (
        All-map entries (λ e found apart. lookup-insert_key_other key e.0 v entries apart ∙ found)
          keyed),
  )
