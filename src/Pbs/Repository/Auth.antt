-- ===== src/Pbs/Repository/Auth.antt =====
-- crates/pbs-client/src/repository.rs: the auth id of a repository's text.
use pbsgui.Base.{
  ==_iff, All, Bool-cases, Option, Text, [], ap, false, inl, inr, none, refl, some, sym, true, ℕ,
  ◌++◌, ◌==◌, ◌∙◌, ◌∷◌, ◌≡◌, ◌≢◌, ◌⊎◌,
}
use pbsgui.Pbs.Repository.{rsplit_once, split_auth}

-- No character of the text has that code.
abbrev pub Lacks : ℕ → Text → Type 0
Lacks c s = All (λ (x : ℕ). x ≢ c) s

rsplit_tail :
    (c x : ℕ) (xs a b : Text)
    → rsplit_once c xs ≡ some (a, b)
    → rsplit_once c (x ∷ xs) ≡ some (x ∷ a, b)
unfolding rsplit_once
rsplit_tail c x xs a b e = rw (e, rsplit_once)

rsplit_here :
    (c x : ℕ) (xs : Text)
    → rsplit_once c xs ≡ none
    → (x == c) ≡ true
    → rsplit_once c (x ∷ xs) ≡ some ([], xs)
unfolding rsplit_once
rsplit_here c x xs e same = rw (e, same, rsplit_once)

rsplit_gone :
    (c x : ℕ) (xs : Text)
    → rsplit_once c xs ≡ none
    → (x == c) ≡ false
    → rsplit_once c (x ∷ xs) ≡ none
unfolding rsplit_once
rsplit_gone c x xs e other = rw (e, other, rsplit_once)

-- Either the text lacks the character, or it is split at its last one.
rsplit_once_lem :
    (c : ℕ) (s : Text)
    → ((rsplit_once c s ≡ none) × Lacks c s)
      ⊎ ((a : Text) × (b : Text) × (rsplit_once c s ≡ some (a, b)) × (s ≡ a ++ (c ∷ b)) × Lacks c b)
unfolding rsplit_once
rsplit_once_lem c [] = inl (refl, tt)
rsplit_once_lem c (x ∷ xs) = elim (rsplit_once_lem c xs) [
  | inr (a, b, found, whole, lacks) ↦
      inr (x ∷ a, b, rsplit_tail c x xs a b found, ap (λ l. x ∷ l) whole, lacks)
  | inl (gone, lacks) ↦ elim (Bool-cases (x == c)) [
    | inl same ↦
        inr ([], xs, rsplit_here c x xs gone same, ap (λ y. y ∷ xs) ((==_iff x c).0 same), lacks)
    | inr other ↦ inl (
      rsplit_gone c x xs gone other,
      ((λ e. absurd (false_true (sym other ∙ (==_iff x c).1 e))), lacks),
    )
  ]
]
  where
    false_true : ¬ (false ≡ true)
    false_true e = cc

-- The auth id may hold an `@`, the rest of the text never does: where `split_auth` answers an auth id, the text is that
-- id, an `@` and the rest, and the rest has no `@`.
pub split_auth-some :
    (s auth rest : Text)
    → split_auth s ≡ (some auth, rest)
    → (s ≡ auth ++ (64 ∷ rest)) × Lacks 64 rest
unfolding split_auth
split_auth-some s auth rest e = elim (rsplit_once_lem 64 s) [
  | inl (gone, lacks) ↦ cc (rw (gone, split_auth) at e)
  | inr (a, b, found, whole, lacks) ↦
      let split : ◌≡◌ {A = Option Text × Text} (some a, b) (some auth, rest) =
        rw (found, split_auth) at e in
      let same_auth : a ≡ auth = cc in
      let same_rest : b ≡ rest = ap (λ p. p.1) split in rw (← same_auth, ← same_rest) (whole, lacks)
]
