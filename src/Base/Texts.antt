-- ===== src/Base/Texts.antt =====
-- Texts as lists of code points: trimming, ASCII case, and `str::parse` of unsigned integers.
use Prim.Native.Nat.{ℕ, ◌+◌, ◌-◌, ◌*◌}
use mathlib.Core.Bool.{Bool, ◌&&◌, ◌||◌}
use mathlib.Core.List.{List, [], ◌∷◌, ◌++◌, map, reverse}
use mathlib.Core.Option.{Option, none, some}
use mathlib.Core.Option
use mathlib.Core.Path.{◌≡◌, refl, ap}
use mathlib.Core.Logic.{◌⊎◌, inl, inr}
use pbsgui.Base.Tests.{Bool-cases, ==_iff, ltb, leb, ◌==◌, list_eq, if◌then◌else◌}

abbrev pub Text : Type 0
Text = List ℕ

-- `char::is_whitespace`
unfoldable pub is_whitespace : ℕ → Bool
is_whitespace c =
    (leb 9 c && leb c 13)
    || c == 32
    || c == 0x85
    || c == 0xa0
    || c == 0x1680
    || (leb 0x2000 c && leb c 0x200a)
    || c == 0x2028
    || c == 0x2029
    || c == 0x202f
    || c == 0x205f
    || c == 0x3000

unfoldable pub trim_start : Text → Text
trim_start [] = []
trim_start (c ∷ cs) = let rest = trim_start cs in if is_whitespace c then rest else c ∷ cs

-- `str::trim`
unfoldable pub trim : Text → Text
unfolding trim_start is_whitespace
trim s = reverse (trim_start (reverse (trim_start s)))

unfoldable pub to_ascii_lowercase : ℕ → ℕ
to_ascii_lowercase c = if leb b'A' c && leb c b'Z' then c + 32 else c

unfoldable pub eq_ignore_ascii_case : Text → Text → Bool
unfolding to_ascii_lowercase list_eq
eq_ignore_ascii_case a b = list_eq (map to_ascii_lowercase a) (map to_ascii_lowercase b)

abbrev is_digit : ℕ → Bool
is_digit c = leb b'0' c && leb c b'9'

-- The digits behind `acc`, where the value stays below `bound`.
unfoldable pub parse_digits : ℕ → ℕ → Text → Option ℕ
parse_digits bound acc [] = some acc
parse_digits bound acc (c ∷ cs) =
    let next = acc * 10 + (c - b'0') in
    let rest = parse_digits bound next cs in if is_digit c && ltb next bound then rest else none

-- `s.parse()` for an unsigned type with values below `bound`: a `+` may stand before the digits.
unfoldable pub parse_unsigned : ℕ → Text → Option ℕ
unfolding parse_digits
parse_unsigned bound [] = none
parse_unsigned bound (c ∷ []) = parse_digits bound 0 (c ∷ [])
parse_unsigned bound (c ∷ d ∷ cs) =
    if c == b'+' then parse_digits bound 0 (d ∷ cs) else parse_digits bound 0 (c ∷ d ∷ cs)

-- `str::split_once` at one character, given as its code.
unfoldable pub split_once : ℕ → Text → Option (Text × Text)
split_once sep [] = none
split_once sep (x ∷ xs) =
    let rest = Option.map (λ (parts : Text × Text). (x ∷ parts.0, parts.1)) (split_once sep xs) in
    if x == sep then some ([], xs) else rest

-- Either there is no such character, or the text is split at one.
pub split_once_lem :
    (sep : ℕ) (s : Text)
    → (split_once sep s ≡ none)
      ⊎ ((a : Text) × (b : Text) × (split_once sep s ≡ some (a, b)) × (s ≡ a ++ (sep ∷ b)))
unfolding split_once
split_once_lem sep [] = inl refl
split_once_lem sep (x ∷ xs) = elim (Bool-cases (x == sep)) [
  | inl same ↦ inr ([], xs, rw same, ap (λ y. y ∷ xs) ((==_iff x sep).0 same))
  | inr other ↦ elim (split_once_lem sep xs) [
    | inl gone ↦ inl (rw (other, gone))
    | inr (a, b, found, whole) ↦ inr (x ∷ a, b, rw (other, found), ap (λ l. x ∷ l) whole)
  ]
]
