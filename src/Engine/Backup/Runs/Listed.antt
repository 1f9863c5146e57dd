-- ===== src/Engine/Backup/Runs/Listed.antt =====
-- crates/pbsgui-engine/src/backup.rs: the keys of the maps of the runs in progress.
use pbsgui.Base.{
  All, Bool, Bool-cases, List, Text, [], ap, ap₂, arith, false, inl, inr, list_eq, list_eq_iff, map,
  none, not, refl, sym, ◌&&◌, ◌++◌, ◌||◌, ◌∙◌, ◌∷◌, ◌≡◌, ◌≢◌,
}
use mathlib.Core.Bool.{false≢true}
use mathlib.Core.Path.{subst}
use mathlib.Core.Option.{none-ne-some}
use pbsgui.Base.Maps.{Entries, lookup, remove_key, insert_key, update_key, list_eq_other}

-- Whether the job is in the list.
abbrev pub listed : Text → List Text → Bool
listed job [] = false
listed job (x ∷ xs) = list_eq x job || listed job xs

abbrev pub keys {ℓ} : {V : Type ℓ} → Entries V → List Text
keys entries = map (λ e. e.0) entries

-- No text stands twice in the list.
abbrev pub Unique : List Text → Type 0
Unique [] = Unit {0}
Unique (x ∷ xs) = All (λ y. y ≢ x) xs × Unique xs

All-middle :
    (P : Text → Type 0) (before after : List Text) (x : Text)
    → All P (before ++ x ∷ after)
    → P x × All P (before ++ after)
All-middle P [] after x h = h
All-middle P (b ∷ before) after x h =
    let rest = All-middle P before after x h.1 in (rest.0, (h.0, rest.1))

pub Unique-drop :
    (before after : List Text) (key : Text)
    → Unique (before ++ key ∷ after)
    → Unique (before ++ after)
Unique-drop [] after key one = one.1
Unique-drop (b ∷ before) after key one =
    ((All-middle (λ y. y ≢ b) before after key one.0).1, Unique-drop before after key one.1)

not_empty : (before after : List Text) (x : Text) → [] ≢ before ++ x ∷ after
not_empty [] after x h = cc
not_empty (b ∷ before) after x h = cc

tails : {a b : Text} {xs ys : List Text} → a ∷ xs ≡ b ∷ ys → (a ≡ b) × (xs ≡ ys)
tails h = (cc, cc)

pub listed-middle :
    (job : Text) (before after : List Text) (x : Text)
    → listed job (before ++ x ∷ after) ≡ (list_eq x job || listed job (before ++ after))
listed-middle job [] after x = refl
listed-middle job (b ∷ before) after x =
    let rest = listed-middle job before after x in ground (arith, rest)

listed-absent : (job : Text) (jobs : List Text) → All (λ k. k ≢ job) jobs → listed job jobs ≡ false
listed-absent job [] apart = refl
listed-absent job (x ∷ xs) apart = elim (Bool-cases (list_eq x job)) [
  | inl hit ↦ absurd (apart.0 ((list_eq_iff x job).0 hit))
  | inr miss ↦ rw (miss, listed-absent job xs apart.1) refl
]

pub Unique-absent :
    (before after : List Text) (job : Text)
    → Unique (before ++ job ∷ after)
    → listed job (before ++ after) ≡ false
Unique-absent [] after job one = listed-absent job after one.0
Unique-absent (b ∷ before) after job one =
    let apart = (All-middle (λ y. y ≢ b) before after job one.0).0 in
    elim (Bool-cases (list_eq b job)) [
      | inl hit ↦ absurd (apart (sym ((list_eq_iff b job).0 hit)))
      | inr miss ↦ rw (miss, Unique-absent before after job one.1) refl
    ]

shadowed : (e l : Bool) → (l && not e) ≡ ((e || l) && not e)
shadowed e l = ground arith

module _ {ℓ} {V : Type ℓ} where
  pub keys-update_key :
      (key : Text) (f : V → V) (entries : Entries V)
      → keys (update_key key f entries) ≡ keys entries
  unfolding update_key
  keys-update_key key f [] = refl
  keys-update_key key f ((k, v) ∷ rest) = elim (Bool-cases (list_eq k key)) [
    | inl hit ↦ rw hit
    | inr miss ↦ rw (miss, keys-update_key key f rest)
  ]

  pub lookup-absent :
      (key : Text) (entries : Entries V)
      → lookup key entries ≡ none
      → All (λ k. k ≢ key) (keys entries)
  unfolding lookup
  lookup-absent key [] gone = tt
  lookup-absent key ((k, v) ∷ rest) gone = elim (Bool-cases (list_eq k key)) [
    | inl hit ↦ absurd (none-ne-some v (sym (rw (hit, lookup) at gone)))
    | inr miss ↦ (
      λ same. false≢true (sym miss ∙ (list_eq_iff k key).1 same),
      lookup-absent key rest (rw (miss, lookup) at gone),
    )
  ]

  remove_key-absent :
      (key : Text) (entries : Entries V)
      → All (λ k. k ≢ key) (keys entries)
      → remove_key key entries ≡ entries
  unfolding remove_key
  remove_key-absent key [] apart = refl
  remove_key-absent key ((k, v) ∷ rest) apart = elim (Bool-cases (list_eq k key)) [
    | inl hit ↦ absurd (apart.0 ((list_eq_iff k key).0 hit))
    | inr miss ↦ rw (miss, remove_key-absent key rest apart.1)
  ]

  pub keys-insert_key :
      (key : Text) (v : V) (entries : Entries V)
      → All (λ k. k ≢ key) (keys entries)
      → keys (insert_key key v entries) ≡ key ∷ keys entries
  unfolding insert_key
  keys-insert_key key v entries apart = ap (λ l. key ∷ keys l) (remove_key-absent key entries apart)

  pub keys-remove_key :
      (key : Text) (before after : List Text) (entries : Entries V)
      → keys entries ≡ before ++ key ∷ after
      → Unique (before ++ key ∷ after)
      → keys (remove_key key entries) ≡ before ++ after
  unfolding remove_key
  keys-remove_key key before after [] same one = absurd (not_empty before after key same)
  keys-remove_key key [] after ((k, v) ∷ rest) same one =
      let (first, behind) = tails same in
      rw ((list_eq_iff k key).1 first) (
        ap keys (remove_key-absent key rest (subst (All (λ y. y ≢ key)) (sym behind) one.0))
        ∙ behind)
  keys-remove_key key (b ∷ before) after ((k, v) ∷ rest) same one =
      elim (Bool-cases (list_eq k key)) [
        | inl hit ↦ absurd (
            (All-middle (λ y. y ≢ b) before after key one.0).0
              (sym ((list_eq_iff k key).0 hit) ∙ (tails same).0))
        | inr miss ↦
            rw (miss, remove_key)
              (ap₂ (λ x xs. x ∷ xs) (tails same).0
                (keys-remove_key key before after rest (tails same).1 one.1))
      ]

  pub listed-remove_key :
      (job key : Text) (entries : Entries V)
      → listed job (keys (remove_key key entries))
        ≡ (listed job (keys entries) && not (list_eq key job))
  unfolding remove_key
  listed-remove_key job key [] = refl
  listed-remove_key job key ((k, v) ∷ rest) =
      let kept = listed-remove_key job key rest in
      elim (Bool-cases (list_eq k key)) [
        | inl hit ↦
            rw (hit, kept, (list_eq_iff k key).0 hit)
              (shadowed (list_eq key job) (listed job (keys rest)))
        | inr miss ↦ elim (Bool-cases (list_eq k job)) [
          | inr other ↦ rw (miss, kept, other) refl
          | inl same ↦
              let apart : list_eq key job ≡ false = list_eq_other key job (λ e.
                false≢true
                  (sym miss ∙ (list_eq_iff k key).1 ((list_eq_iff k job).0 same ∙ sym e))) in
              rw (miss, kept, same, apart) refl
        ]
      ]
