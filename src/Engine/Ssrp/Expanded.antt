-- ===== src/Engine/Ssrp/Expanded.antt =====
-- crates/pbsgui-engine/src/sql/ssrp.rs: what a discovery target is expanded to.
use pbsgui.Base.{
  Bool-cases, List, Option-cases, Text, [], arith, false, inl, inr, leb, leb→lt, length, length-map,
  ltb, map, none, parse_digits, parse_unsigned, refl, some, split_once, suc, trim, true, zero, ℕ,
  ◌&&◌, ◌*◌, ◌+◌, ◌-◌, ◌/◌, ◌<◌, ◌==◌, ◌^◌, ◌↔◌, ◌∷◌, ◌≡◌, ◌≢◌, ◌≤◌, ◌⊎◌,
}
use mathlib.Core.Option.{none-ne-some}
use mathlib.Core.Path.{subst}
use pbsgui.Base.Maps.{same_some}
use pbsgui.Base.Elements.{Has}
use pbsgui.Engine.Ssrp.Subnet.{IsHost, subnet_hosts_iff}
use native.Mathlib.Nat.{pow-le-pow_right}
use pbsgui.Engine.Ssrp.{
  subnet_hosts, ipv4_text, expand_target, parse_ipv4, count_up, split_at, parse_octet, address_of,
}

parse_digits-lt :
    (bound acc n : ℕ) (t : Text) → acc < bound → parse_digits bound acc t ≡ some n → n < bound
unfolding parse_digits
parse_digits-lt bound acc n [] less h = subst (λ m. m < bound) (same_some h) less
parse_digits-lt bound acc n (c ∷ cs) less h =
    let next = acc * 10 + (c - b'0') in
    elim (Bool-cases (leb b'0' c && leb c b'9' && ltb next bound)) [
      | inr bad ↦ absurd (none-ne-some n (rw (bad, parse_digits) at h))
      | inl good ↦ parse_digits-lt bound next n cs (ground arith) (rw (good, parse_digits) at h)
    ]

parse_octet-lt : (t : Text) (n : ℕ) → parse_octet t ≡ some n → n < 256
unfolding parse_octet
parse_octet-lt [] n h = absurd (none-ne-some n h)
parse_octet-lt (c ∷ []) n h = parse_digits-lt 256 0 n (c ∷ []) (omega arith) h
parse_octet-lt (c ∷ d ∷ cs) n h = elim (Bool-cases (c == b'0')) [
  | inl zero_first ↦ absurd (none-ne-some n (rw (zero_first, parse_octet) at h))
  | inr other ↦ parse_digits-lt 256 0 n (c ∷ d ∷ cs) (omega arith) (rw (other, parse_octet) at h)
]

address_of-lt : (parts : List Text) (ip : ℕ) → address_of parts ≡ some ip → ip < 2 ^ 32
unfolding address_of
address_of-lt [] ip h = absurd (none-ne-some ip h)
address_of-lt (a ∷ []) ip h = absurd (none-ne-some ip h)
address_of-lt (a ∷ b ∷ []) ip h = absurd (none-ne-some ip h)
address_of-lt (a ∷ b ∷ c ∷ []) ip h = absurd (none-ne-some ip h)
address_of-lt (a ∷ b ∷ c ∷ d ∷ e ∷ rest) ip h = absurd (none-ne-some ip h)
address_of-lt (a ∷ b ∷ c ∷ d ∷ []) ip h = elim (Option-cases (parse_octet a)) [
  | inl gone ↦ absurd (none-ne-some ip (rw (gone, address_of) at h))
  | inr (w, ew) ↦ elim (Option-cases (parse_octet b)) [
    | inl gone ↦ absurd (none-ne-some ip (rw (ew, gone, address_of) at h))
    | inr (x, ex) ↦ elim (Option-cases (parse_octet c)) [
      | inl gone ↦ absurd (none-ne-some ip (rw (ew, ex, gone, address_of) at h))
      | inr (y, ey) ↦ elim (Option-cases (parse_octet d)) [
        | inl gone ↦ absurd (none-ne-some ip (rw (ew, ex, ey, gone, address_of) at h))
        | inr (z, ez) ↦
            let value : ((w * 256 + x) * 256 + y) * 256 + z ≡ ip =
              same_some (rw (ew, ex, ey, ez, address_of) at h) in
            omega (
              arith,
              parse_octet-lt a w ew,
              parse_octet-lt b x ex,
              parse_octet-lt c y ey,
              parse_octet-lt d z ez,
            )
      ]
    ]
  ]
]

count_up-length : (start n : ℕ) → length (count_up start n) ≡ n
unfolding count_up
count_up-length start zero = refl
count_up-length start (suc n) = omega (arith, count_up-length (suc start) n)

length-subnet_hosts :
    (ip prefix : ℕ) → 22 ≤ prefix → prefix ≤ 32 → length (subnet_hosts ip prefix) ≤ 1022
unfolding subnet_hosts
length-subnet_hosts ip prefix wide narrow =
    let size = 2 ^ (32 - prefix) in
    let base = ip / size * size in
    let limit : size ≤ 2 ^ 10 =
      pow-le-pow_right {n = 2} (omega arith) (let e : 32 - prefix ≤ 10 = omega arith in e) in
    elim (Bool-cases (leb prefix 30)) [
      | inl usual ↦
          rw (usual, subnet_hosts)
            (let e : length (map (λ i. base + i) (count_up 1 (size - 1 - 1))) ≤ 1022 = omega (
              arith,
              length-map (λ i. base + i) (count_up 1 (size - 1 - 1)),
              count_up-length 1 (size - 1 - 1),
              limit,
            ) in
              e)
      | inr small ↦
          let two : size ≤ 2 ^ 1 =
            pow-le-pow_right {n = 2} (omega arith)
              (let e : 32 - prefix ≤ 1 = omega (arith, leb→lt prefix 30 small) in e) in
          rw (small, subnet_hosts)
            (let e : length (map (λ i. base + i) (count_up 0 (size - 0))) ≤ 1022 = omega (
              arith,
              length-map (λ i. base + i) (count_up 0 (size - 0)),
              count_up-length 0 (size - 0),
              two,
            ) in
              e)
    ]

-- What a target stands for. The two parts of `net/prefix` are read apart: an address of four octets, and a decimal number.
pub data IsExpanded (target : Text) : List Text → Type 0 where
  empty_target : trim target ≡ [] → IsExpanded target []
  itself :
      split_once b'/' (trim target) ≡ none → trim target ≢ [] → IsExpanded target (trim target ∷ [])
  unread :
      (net prefix : Text)
      → split_once b'/' (trim target) ≡ some (net, prefix)
      → (parse_ipv4 (trim net) ≡ none) ⊎ (parse_unsigned (2 ^ 32) (trim prefix) ≡ none)
      → IsExpanded target []
  too_wide :
      (net prefix : Text) (ip p : ℕ)
      → split_once b'/' (trim target) ≡ some (net, prefix)
      → parse_ipv4 (trim net) ≡ some ip
      → parse_unsigned (2 ^ 32) (trim prefix) ≡ some p
      → (p < 22) ⊎ (32 < p)
      → IsExpanded target []
  subnet :
      (net prefix : Text) (ip p : ℕ) (addresses : List ℕ)
      → split_once b'/' (trim target) ≡ some (net, prefix)
      → parse_ipv4 (trim net) ≡ some ip
      → parse_unsigned (2 ^ 32) (trim prefix) ≡ some p
      → 22 ≤ p
      → p ≤ 32
      → ((a : ℕ) → Has a addresses ↔ (IsHost ip p a × (a < 2 ^ 32)))
      → IsExpanded target (map ipv4_text addresses)

few_hosts : (ip p : ℕ) → 22 ≤ p → p ≤ 32 → length (map ipv4_text (subnet_hosts ip p)) ≤ 1022
few_hosts ip p wide narrow =
    omega (arith, length-map ipv4_text (subnet_hosts ip p), length-subnet_hosts ip p wide narrow)

length_zero : (t : Text) → (length t == 0) ≡ true → t ≡ []
length_zero [] e = refl
length_zero (c ∷ t) e = ground arith

length_some : (t : Text) → (length t == 0) ≡ false → t ≢ []
length_some [] e same = ground arith
length_some (c ∷ t) e same = cc

-- A target is expanded to at most 1022 hosts: to none where it is blank; to itself, trimmed, where it has no slash; and
-- where it is `net/prefix`, to none unless the parts are an IPv4 address and a number from 22 to 32, and then to the texts
-- of just the host addresses of that address's subnet of that prefix: those that agree with it in the prefix, without
-- the network and the broadcast address where the prefix has at most 30 bits, all below 2^32.
pub expand_target-IsExpanded :
    (target : Text)
    → IsExpanded target (expand_target target) × (length (expand_target target) ≤ 1022)
unfolding expand_target parse_ipv4
expand_target-IsExpanded target = elim (Option-cases (split_once b'/' (trim target))) [
  | inl plain ↦ elim (Bool-cases (length (trim target) == 0)) [
    | inl empty ↦
        rw (plain, empty, expand_target)
          (empty_target (length_zero (trim target) empty), omega arith)
    | inr named ↦
        rw (plain, named, expand_target)
          (itself plain (length_some (trim target) named), omega arith)
  ]
  | inr ((net, prefix), split) ↦ elim (Option-cases (parse_ipv4 (trim net))) [
    | inl none_read ↦
        rw (split, none_read, expand_target) (unread net prefix split (inl none_read), omega arith)
    | inr (ip, read) ↦ elim (Option-cases (parse_unsigned (2 ^ 32) (trim prefix))) [
      | inl none_read ↦
          rw (split, read, none_read, expand_target)
            (unread net prefix split (inr none_read), omega arith)
      | inr (p, bits) ↦ elim (Bool-cases (leb 22 p && leb p 32)) [
        | inr outside ↦
            rw (split, read, bits, outside, expand_target)
              (too_wide net prefix ip p split read bits (ground arith), omega arith)
        | inl inside ↦
            let wide : 22 ≤ p = ground arith in
            let narrow : p ≤ 32 = ground arith in
            let fits = address_of-lt (split_at b'.' (trim net)) ip read in
            rw (split, read, bits, inside, expand_target)
              (
                subnet net prefix ip p (subnet_hosts ip p) split read bits wide narrow
                    (λ a. subnet_hosts_iff ip p a narrow fits),
                few_hosts ip p wide narrow,
              )
      ]
    ]
  ]
]
