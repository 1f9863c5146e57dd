-- ===== src/Engine/Ssrp.antt =====
-- crates/pbsgui-engine/src/sql/ssrp.rs: the hosts that a discovery target stands for.
pub mod Subnet
pub mod Expanded
use pbsgui.Base.{
  List, Option, Text, [], if◌then◌else◌, leb, length, ltb, map, none, parse_digits, parse_unsigned,
  pieces, some, split_once, suc, trim, zero, ℕ, ◌%◌, ◌&&◌, ◌*◌, ◌++◌, ◌+◌, ◌-◌, ◌/◌, ◌==◌, ◌^◌, ◌∷◌,
}
use mathlib.Core.Option

abbrev pub with_front : ℕ → List Text → List Text
with_front c [] = (c ∷ []) ∷ []
with_front c (p ∷ ps) = (c ∷ p) ∷ ps

-- `str::split` at one character.
unfoldable pub split_at : ℕ → Text → List Text
split_at sep [] = [] ∷ []
split_at sep (c ∷ cs) =
    let pieces = split_at sep cs in if c == sep then [] ∷ pieces else with_front c pieces

-- A number of an address: of up to three digits, below 256, without a zero in front.
unfoldable pub parse_octet : Text → Option ℕ
unfolding parse_digits
parse_octet [] = none
parse_octet (c ∷ []) = parse_digits 256 0 (c ∷ [])
parse_octet (c ∷ d ∷ cs) = if c == b'0' then none else parse_digits 256 0 (c ∷ d ∷ cs)

-- `parse::<Ipv4Addr>()`, with the address as a `u32`.
unfoldable pub address_of : List Text → Option ℕ
unfolding parse_octet
address_of (a ∷ b ∷ c ∷ d ∷ []) = elim (parse_octet a) [
  | none ↦ none
  | some w ↦ elim (parse_octet b) [
    | none ↦ none
    | some x ↦ elim (parse_octet c) [
      | none ↦ none
      | some y ↦ Option.map (λ z. ((w * 256 + x) * 256 + y) * 256 + z) (parse_octet d)
    ]
  ]
]
address_of parts = none

unfoldable pub parse_ipv4 : Text → Option ℕ
unfolding address_of split_at
parse_ipv4 t = address_of (split_at b'.' t)

unfoldable pub octet_text : ℕ → Text
octet_text n =
    if ltb n 10
    then (b'0' + n) ∷ []
    else if ltb n 100
    then (b'0' + n / 10) ∷ (b'0' + n % 10) ∷ []
    else (b'0' + n / 100) ∷ (b'0' + n / 10 % 10) ∷ (b'0' + n % 10) ∷ []

-- `Ipv4Addr::from(…).to_string()`
unfoldable pub ipv4_text : ℕ → Text
unfolding octet_text
ipv4_text ip =
    octet_text (ip / 2 ^ 24)
    ++ (b'.' ∷ octet_text (ip / 2 ^ 16 % 256))
    ++ (b'.' ∷ octet_text (ip / 2 ^ 8 % 256))
    ++ (b'.' ∷ octet_text (ip % 256))

-- So many numbers from this one on.
unfoldable pub count_up : ℕ → ℕ → List ℕ
count_up start zero = []
count_up start (suc n) = start ∷ count_up (suc start) n

-- The addresses `base + i`; the mask clears the low bits.
unfoldable pub subnet_hosts : ℕ → ℕ → List ℕ
unfolding count_up
subnet_hosts ip prefix =
    let bits = 32 - prefix in
    let base = ip / 2 ^ bits * 2 ^ bits in
    let count = 2 ^ bits in
    let (start, end) : ℕ × ℕ = if leb prefix 30 then (1, count - 1) else (0, count) in
    map (λ i. base + i) (count_up start (end - start))

unfoldable pub expand_target : Text → List Text
unfolding split_once trim parse_ipv4 parse_unsigned ipv4_text subnet_hosts
expand_target target = elim (split_once b'/' (trim target)) [
  | none ↦ if length (trim target) == 0 then [] else trim target ∷ []
  | some (net, prefix) ↦ elim (parse_ipv4 (trim net)) [
    | none ↦ []
    | some ip ↦ elim (parse_unsigned (2 ^ 32) (trim prefix)) [
      | none ↦ []
      | some p ↦ if leb 22 p && leb p 32 then map ipv4_text (subnet_hosts ip p) else []
    ]
  ]
]
