-- ===== src/Engine/Ssrp/Subnet.antt =====
-- crates/pbsgui-engine/src/sql/ssrp.rs: the addresses of a subnet.
use pbsgui.Base.{
  ==_iff, Bool-cases, List, [], ap, arith, inl, inr, leb, leb→le, leb→lt, map, refl, suc, sym, zero,
  ℕ, ◌%◌, ◌*◌, ◌+◌, ◌-◌, ◌/◌, ◌<◌, ◌==◌, ◌^◌, ◌↔◌, ◌∙◌, ◌∷◌, ◌≡◌, ◌≤◌, ◌⊎◌,
}
use pbsgui.Base.Elements.{Has, here, there}
use mathlib.Core.Path.{subst}
use native.Mathlib.Nat.{
  one-le-pow, pow-suc, mul_assoc, mul_comm, div-lt_iff_lt-mul, div-add-mod', mod-lt,
  add-mul-div_right, add-mul-mod_self_right, mod-eq_of_lt, div-eq_of_lt,
}
use pbsgui.Engine.Ssrp.{count_up, subnet_hosts}

Has-count_up : (start n a : ℕ) → Has a (count_up start n) → (start ≤ a) × (a < start + n)
unfolding count_up
Has-count_up start zero a has = elim has [ ]
Has-count_up start (suc n) a here = (omega arith, omega arith)
Has-count_up start (suc n) a (there more) =
    let (low, high) = Has-count_up (suc start) n a more in (omega arith, omega arith)

count_up-Has : (start n a : ℕ) → start ≤ a → a < start + n → Has a (count_up start n)
unfolding count_up
count_up-Has start zero a low high = absurd (omega arith)
count_up-Has start (suc n) a low high = elim (Bool-cases (start == a)) [
  | inl same ↦ subst (λ x. Has a (x ∷ count_up (suc start) n)) (sym ((==_iff start a).0 same)) here
  | inr apart ↦ there (count_up-Has (suc start) n a (ground arith) (omega arith))
]

Has-map : (f : ℕ → ℕ) (xs : List ℕ) (a : ℕ) → Has a (map f xs) → (x : ℕ) × Has x xs × (f x ≡ a)
Has-map f [] a has = elim has [ ]
Has-map f (x ∷ xs) a here = (x, here, refl)
Has-map f (x ∷ xs) a (there more) = let (y, has, same) = Has-map f xs a more in (y, there has, same)

map-Has : (f : ℕ → ℕ) (xs : List ℕ) (x : ℕ) → Has x xs → Has (f x) (map f xs)
map-Has f [] x has = elim has [ ]
map-Has f (y ∷ xs) x here = here
map-Has f (y ∷ xs) x (there more) = there (map-Has f xs x more)

-- A number in the block of `c` numbers that starts at a multiple of `c`.
in_block : (q c i : ℕ) → i < c → ((q * c + i) / c ≡ q) × ((q * c + i) % c ≡ i)
in_block q c i less =
    let swap : q * c + i ≡ i + q * c = omega arith in
    (
      ap (λ x. x / c) swap
          ∙ add-mul-div_right i q (omega arith)
          ∙ (let e : i / c + q ≡ q = rw (div-eq_of_lt less) (omega arith) in e),
      ap (λ x. x % c) swap ∙ add-mul-mod_self_right i q c ∙ mod-eq_of_lt less,
    )

pow_split : (a b : ℕ) → 2 ^ (a + b) ≡ 2 ^ a * 2 ^ b
pow_split zero b =
    ap (λ n. 2 ^ n) (let e : 0 + b ≡ b = omega arith in e)
    ∙ (let e : 2 ^ b ≡ 1 * 2 ^ b = omega arith in e)
pow_split (suc a) b =
    let shift : suc a + b ≡ suc (a + b) = omega arith in
    ap (λ n. 2 ^ n) shift
    ∙ pow-suc 2 (a + b)
    ∙ ap (λ n. n * 2) (pow_split a b)
    ∙ mul_assoc (2 ^ a) (2 ^ b) 2
    ∙ ap (λ n. 2 ^ a * n) (mul_comm (2 ^ b) 2)
    ∙ sym (mul_assoc (2 ^ a) 2 (2 ^ b))
    ∙ ap (λ n. n * 2 ^ b) (sym (pow-suc 2 a))

-- An address of the subnet that is a host: for a prefix of at most 30 bits, neither its first nor its last.
abbrev pub IsHost : ℕ → ℕ → ℕ → Type 0
IsHost ip prefix a =
    let size = 2 ^ (32 - prefix) in
    (a / size ≡ ip / size) × ((30 < prefix) ⊎ ((0 < a % size) × (a % size + 1 < size)))

below_limit :
    (ip prefix a : ℕ)
    → prefix ≤ 32
    → ip < 2 ^ 32
    → a / 2 ^ (32 - prefix) ≡ ip / 2 ^ (32 - prefix)
    → a < 2 ^ 32
below_limit ip prefix a short fits same =
    let size = 2 ^ (32 - prefix) in
    let some_size : 0 < size = one-le-pow (32 - prefix) 2 (omega arith) in
    let whole : prefix + (32 - prefix) ≡ 32 = omega arith in
    let split : 2 ^ prefix * size ≡ 2 ^ 32 =
      sym (pow_split prefix (32 - prefix)) ∙ ap (λ n. 2 ^ n) whole in
    let quotient : ip / size < 2 ^ prefix =
      (div-lt_iff_lt-mul some_size).1 (subst (λ n. ip < n) (sym split) fits) in
    subst (λ n. a < n) split
      ((div-lt_iff_lt-mul some_size).0 (subst (λ n. n < 2 ^ prefix) (sym same) quotient))

range-IsHost :
    (ip prefix i : ℕ)
    → i < 2 ^ (32 - prefix)
    → (30 < prefix) ⊎ ((0 < i) × (i + 1 < 2 ^ (32 - prefix)))
    → IsHost ip prefix (ip / 2 ^ (32 - prefix) * 2 ^ (32 - prefix) + i)
range-IsHost ip prefix i less inner =
    let size = 2 ^ (32 - prefix) in
    let (quotient, rest) = in_block (ip / size) size i less in (quotient, rw rest inner)

host_split : (ip size a : ℕ) → a / size ≡ ip / size → ip / size * size + a % size ≡ a
host_split ip size a same = ap (λ q. q * size + a % size) (sym same) ∙ div-add-mod' a size

-- The hosts of the subnet of an address are exactly the addresses that agree with it in the prefix, without the network
-- and the broadcast address where the prefix has at most 30 bits; and all of them are below 2^32, so the `u32` of none
-- overflows.
pub subnet_hosts_iff :
    (ip prefix a : ℕ)
    → prefix ≤ 32
    → ip < 2 ^ 32
    → Has a (subnet_hosts ip prefix) ↔ (IsHost ip prefix a × (a < 2 ^ 32))
unfolding subnet_hosts
subnet_hosts_iff ip prefix a short fits = (
  λ has.
      let host : IsHost ip prefix a = listed has in
      (host, below_limit ip prefix a short fits host.0),
  λ k. lists k.0,
)
  where
    size : ℕ
    size = 2 ^ (32 - prefix)

    base : ℕ
    base = ip / size * size

    some_size : 0 < size
    some_size = one-le-pow (32 - prefix) 2 (omega arith)

    listed : Has a (subnet_hosts ip prefix) → IsHost ip prefix a
    listed has = elim (Bool-cases (leb prefix 30)) [
      | inl usual ↦
          let (i, counted, same) =
            Has-map (λ i. base + i) (count_up 1 (size - 1 - 1)) a
              (rw (usual, subnet_hosts) at has) in
          let (low, high) = Has-count_up 1 (size - 1 - 1) i counted in
          subst (IsHost ip prefix) same
            (range-IsHost ip prefix i (omega arith) (inr (omega arith, omega arith)))
      | inr narrow ↦
          let (i, counted, same) =
            Has-map (λ i. base + i) (count_up 0 (size - 0)) a (rw (narrow, subnet_hosts) at has) in
          let (low, high) = Has-count_up 0 (size - 0) i counted in
          subst (IsHost ip prefix) same
            (range-IsHost ip prefix i (omega arith) (inl (leb→lt prefix 30 narrow)))
    ]

    proper :
        (30 < prefix) ⊎ ((0 < a % size) × (a % size + 1 < size))
        → prefix ≤ 30
        → (0 < a % size) × (a % size + 1 < size)
    proper (inl long) most = absurd (omega arith)
    proper (inr both) most = both

    lists : IsHost ip prefix a → Has a (subnet_hosts ip prefix)
    lists (agrees, inner) =
        let rest : a % size < size = mod-lt a some_size in
        elim (Bool-cases (leb prefix 30)) [
          | inl usual ↦
              let (low, high) = proper inner (leb→le prefix 30 usual) in
              rw (usual, subnet_hosts)
                (subst (λ x. Has x (map (λ i. base + i) (count_up 1 (size - 1 - 1))))
                  (host_split ip size a agrees)
                  (map-Has (λ i. base + i) _ (a % size)
                    (count_up-Has 1 (size - 1 - 1) (a % size) (omega arith) (omega arith))))
          | inr narrow ↦
              rw (narrow, subnet_hosts)
                (subst (λ x. Has x (map (λ i. base + i) (count_up 0 (size - 0))))
                  (host_split ip size a agrees)
                  (map-Has (λ i. base + i) _ (a % size)
                    (count_up-Has 0 (size - 0) (a % size) (omega arith) (omega arith))))
        ]
