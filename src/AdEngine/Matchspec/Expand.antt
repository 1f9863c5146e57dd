-- ===== src/AdEngine/Matchspec/Expand.antt =====
-- crates/pbsgui-ad-engine/src/matchspec.rs: `expand_env` where no variable is known.
use pbsgui.Base.{
  Bool-cases, Option, Text, [], ap, append_assoc, arith, inl, inr, length, length-append, none,
  refl, split_once_lem, suc, sym, zero, ℕ, ◌++◌, ◌+◌, ◌<◌, ◌==◌, ◌∙◌, ◌∷◌, ◌≡◌, ◌≤◌,
}
use pbsgui.AdEngine.Matchspec.{percent, expand_name, expand_within, expand_env}

abbrev pub unknown : Text → Option Text
unknown name = none

-- What a round writes and where it goes on are together what stood behind the percent sign, and it goes on further behind.
IsWhole : Text → Text × Text → Type 0
IsWhole after (written, next) = (written ++ next ≡ percent ∷ after) × (length next ≤ length after)

kept_name :
    (name rest : Text)
    → (percent ∷ (name ++ (percent ∷ []))) ++ rest ≡ percent ∷ (name ++ (percent ∷ rest))
kept_name name rest = ap (λ t. percent ∷ t) (append_assoc name (percent ∷ []) rest)

shorter : (name rest after : Text) → after ≡ name ++ (percent ∷ rest) → length rest < length after
shorter name rest after whole =
    let sized = ap length whole ∙ length-append name (percent ∷ rest) in omega arith

expand_name-IsWhole : (after : Text) → IsWhole after (expand_name unknown after)
unfolding IsWhole expand_name
expand_name-IsWhole after = elim (split_once_lem percent after) [
  | inl gone ↦ rw (gone, expand_name) (refl, omega arith)
  | inr (name, rest, found, whole) ↦ elim (Bool-cases (length name == 0)) [
    | inl empty ↦ rw (found, empty, expand_name) (refl, omega arith)
    | inr some_name ↦
        rw (found, some_name, expand_name)
          (
            kept_name name rest ∙ ap (λ t. percent ∷ t) (sym whole),
            omega (arith, shorter name rest after whole),
          )
  ]
]

expand_within-unknown :
    (fuel : ℕ) → (rest : Text) → length rest < fuel → expand_within fuel unknown rest ≡ rest
unfolding expand_within IsWhole
expand_within-unknown zero rest under = absurd (omega arith)
expand_within-unknown (suc fuel) rest under = elim (split_once_lem percent rest) [
  | inl gone ↦ rw (gone, expand_within) refl
  | inr (front, after, found, whole) ↦
      let round = expand_name-IsWhole after in
      let next = (expand_name unknown after).1 in
      let further : length next ≤ length after = round.1 in
      let behind : expand_within fuel unknown next ≡ next =
        expand_within-unknown fuel next (omega (arith, further, shorter front after rest whole)) in
      rw (found, expand_within)
        (ap (λ l. front ++ ((expand_name unknown after).0 ++ l)) behind
          ∙ ap (λ l. front ++ l) (round.0)
          ∙ sym whole)
]

-- Where no variable is known, `expand_env` gives the path back: a percent sign without its partner, `%%` and an unknown name are all kept as they are.
pub expand_env-unknown : (path : Text) → expand_env path unknown ≡ path
unfolding expand_env
expand_env-unknown path = expand_within-unknown (length path + 1) path (omega arith)
