-- ===== src/AdEngine/Matchspec.antt =====
-- crates/pbsgui-ad-engine/src/matchspec.rs: `%VAR%` expansion and wildcards.
pub mod Reference
pub mod Glob
pub mod Expand
use pbsgui.Base.{
  Bool, Option, Text, [], drop, false, if◌then◌else◌, length, none, some, split_once, suc, true,
  zero, ℕ, ◌&&◌, ◌*◌, ◌++◌, ◌+◌, ◌==◌, ◌||◌, ◌∷◌,
}

abbrev pub star : ℕ
star = b'*'

abbrev pub any_char : ℕ
any_char = b'?'

abbrev pub percent : ℕ
percent = b'%'

-- One round behind a `%`: what is written, and where the scan goes on.
unfoldable pub expand_name : (Text → Option Text) → Text → Text × Text
unfolding split_once
expand_name lookup after = elim (split_once percent after) [
  | none ↦ (percent ∷ [], after)
  | some (name, rest) ↦ if length name == 0 then (percent ∷ [], after) else elim (lookup name) [
    | some value ↦ (value, rest)
    | none ↦ (percent ∷ (name ++ (percent ∷ [])), rest)
  ]
]

-- The loop, with a bound on its rounds: each of them scans a `%` at least.
unfoldable pub expand_within : ℕ → (Text → Option Text) → Text → Text
unfolding expand_name split_once
expand_within zero lookup rest = rest
expand_within (suc fuel) lookup rest = elim (split_once percent rest) [
  | none ↦ rest
  | some (front, after) ↦
      let (written, next) = expand_name lookup after in
      front ++ (written ++ expand_within fuel lookup next)
]

unfoldable pub expand_env : Text → (Text → Option Text) → Text
unfolding expand_within
expand_env path lookup = expand_within (length path + 1) lookup path

-- `star` and `star_t`: the pattern behind the last star, and the text where its run ends.
abbrev pub Back : Type 0
Back = Option (Text × Text)

-- `while p < pat.len() && pat[p] == '*'`, and the test behind it.
unfoldable pub only_stars : Text → Bool
only_stars [] = true
only_stars (x ∷ p) = x == star && only_stars p

-- `p` and `t` are the rests of the pattern and of the text. The bound on the rounds is the first argument.
unfoldable pub glob_loop : ℕ → Text → Text → Back → Option Bool
glob_loop zero p t back = none
glob_loop (suc fuel) p [] back = some (only_stars p)
glob_loop (suc fuel) p (c ∷ t) back =
    let retried : Option Bool = elim back [
      | none ↦ some false
      | some (last, swallowed) ↦
          glob_loop fuel last (drop 1 swallowed) (some (last, drop 1 swallowed))
    ] in
    elim p [
      | [] ↦ retried
      | x ∷ rest ↦
          let onward = glob_loop fuel rest t back in
          let starred = glob_loop fuel rest (c ∷ t) (some (rest, c ∷ t)) in
          if x == any_char || x == c then onward else if x == star then starred else retried
    ]

-- The rounds that are enough for two texts of these lengths: `glob_loop-glob_ref`.
abbrev pub glob_rounds : Text → Text → ℕ
glob_rounds pat text = (length text + 1) * (length pat + 1)

unfoldable pub glob_match : Text → Text → Option Bool
unfolding glob_loop only_stars
glob_match pat text = glob_loop (glob_rounds pat text) pat text none

-- `lower` is `str::to_lowercase`.
unfoldable pub filespec_matches : (Text → Text) → Text → Text → Option Bool
unfolding glob_match
filespec_matches lower spec name = glob_match (lower spec) (lower name)
