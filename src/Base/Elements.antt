-- ===== src/Base/Elements.antt =====
-- An element of a list, with its place.
use mathlib.Core.List.{List, ◌∷◌}

pub data Has {ℓ} {A : Type ℓ} (a : A) : List A → Type ℓ where
  here : {xs : List A} → Has a (a ∷ xs)
  there : {x : A} {xs : List A} → Has a xs → Has a (x ∷ xs)
