-- ===== src/Relay/Server/Steps/Channels.antt =====
-- crates/pbsgui-engine/src/relay/server.rs: the channels of the sessions that wait.
use pbsgui.Base.{
  All, All-map, Bool-cases, List, Text, [], ap, inl, inr, list_eq, map, some, sym, ℕ, ◌∙◌, ◌∷◌, ◌≡◌,
  ◌≢◌,
}
use pbsgui.Base.Elements.{Has, here, there}
use pbsgui.Base.Maps.{Entries, lookup, remove_key, All-remove_key, All-lookup, same_some}
use pbsgui.Relay.Server.{SessionSlot}

abbrev pub Distinct : List ℕ → Type 0
Distinct [] = Unit {0}
Distinct (n ∷ ns) = All (λ m. m ≢ n) ns × Distinct ns

abbrev pub channels : Entries SessionSlot → List ℕ
channels sessions = map (λ e. e.1.deliver) sessions

pub All-of_map {ℓ κ} :
    {A : Type ℓ} (P : ℕ → Type κ) (f : A → ℕ) (xs : List A)
    → All (λ x. P (f x)) xs
    → All P (map f xs)
All-of_map P f [] h = tt
All-of_map P f (x ∷ xs) h = (h.0, All-of_map P f xs h.1)

pub All-to_map {ℓ κ} :
    {A : Type ℓ} (P : ℕ → Type κ) (f : A → ℕ) (xs : List A)
    → All P (map f xs)
    → All (λ x. P (f x)) xs
All-to_map P f [] h = tt
All-to_map P f (x ∷ xs) h = (h.0, All-to_map P f xs h.1)

pub All-has {ℓ κ} : {A : Type ℓ} (P : A → Type κ) (a : A) (xs : List A) → All P xs → Has a xs → P a
All-has P a [] h has = elim has [ ]
All-has P a (x ∷ xs) h here = h.0
All-has P a (x ∷ xs) h (there more) = All-has P a xs h.1 more

-- Entries that are removed leave the channels distinct, and none of those that are kept has the channel of the one found.
pub Distinct-remove_key :
    (key : Text) (sessions : Entries SessionSlot)
    → Distinct (channels sessions)
    → Distinct (channels (remove_key key sessions))
unfolding remove_key
Distinct-remove_key key [] once = tt
Distinct-remove_key key ((k, v) ∷ rest) once = elim (Bool-cases (list_eq k key)) [
  | inl hit ↦ rw hit (Distinct-remove_key key rest once.1)
  | inr miss ↦ rw miss (
    All-of_map (λ m. m ≢ v.deliver) (λ e. e.1.deliver) (remove_key key rest)
        (All-remove_key _ key rest
          (All-to_map (λ m. m ≢ v.deliver) (λ e. e.1.deliver) rest once.0)),
    Distinct-remove_key key rest once.1,
  )
]

pub removed_apart :
    (key : Text) (slot : SessionSlot) (sessions : Entries SessionSlot)
    → Distinct (channels sessions)
    → lookup key sessions ≡ some slot
    → All (λ e. slot.deliver ≢ e.1.deliver) (remove_key key sessions)
unfolding lookup remove_key
removed_apart key slot [] once found = tt
removed_apart key slot ((k, v) ∷ rest) once found = elim (Bool-cases (list_eq k key)) [
  | inl hit ↦
      let same : v ≡ slot = same_some (rw (hit, lookup) at found) in
      let others : All (λ e. e.1.deliver ≢ v.deliver) rest =
        All-to_map (λ m. m ≢ v.deliver) (λ e. e.1.deliver) rest once.0 in
      rw hit (
        All-remove_key _ key rest
          (All-map rest (λ e h p. h (sym p ∙ ap (λ x. x.deliver) (sym same))) others))
  | inr miss ↦
      let behind : lookup key rest ≡ some slot = rw (miss, lookup) at found in
      let others : All (λ e. e.1.deliver ≢ v.deliver) rest =
        All-to_map (λ m. m ≢ v.deliver) (λ e. e.1.deliver) rest once.0 in
      rw miss (
        All-lookup (λ e. e.1.deliver ≢ v.deliver) key slot rest others behind,
        removed_apart key slot rest once.1 behind,
      )
]
