-- ===== src/Networks/Subnet.antt =====
-- `is_subnet_of` decides inclusion of the address ranges.
use umbrella_linux.Base.{ℕ, suc, ◌-◌, ◌^◌, ◌≤◌, ◌<◌, ◌≡◌, ◌↔◌, true, arith}
use umbrella_linux.Net.{Network, IsNetwork, num_addresses, broadcast_address, has_address}
use umbrella_linux.Net.Range.{has_address_iff, num_addresses-pos}
use umbrella_linux.Networks.{is_subnet_of}
use native.Mathlib.Nat.{pow-suc, one-le-pow, pow-le-pow_right}
use native.Mathlib.Decide.{dec_lt}

-- Inclusion of the ranges, as `is_subnet_of` tests it.
pub record Within (a b : Network) : Type 0 where
  pub low : b.address ≤ a.address
  pub high : broadcast_address a ≤ broadcast_address b

pub is_subnet_of→Within : (a b : Network) → is_subnet_of a b ≡ true → Within a b
unfolding is_subnet_of
is_subnet_of→Within a b h = record { low = ground arith; high = ground arith }

pub Within→is_subnet_of : (a b : Network) → Within a b → is_subnet_of a b ≡ true
unfolding is_subnet_of
Within→is_subnet_of a b h = ground (arith, h.low, h.high)

pub Within-refl : (a : Network) → Within a a
Within-refl a = record { low = omega arith; high = omega arith }

pub Within-trans : {a b c : Network} → Within a b → Within b c → Within a c
Within-trans h k = record {
  low = omega (arith, h.low, k.low);
  high = omega (arith, h.high, k.high);
}

-- One well-formed network is a subnet of another exactly if each of its addresses is an address
-- of the other.
pub is_subnet_of_iff :
    (a b : Network)
    → IsNetwork a
    → IsNetwork b
    → (is_subnet_of a b ≡ true) ↔ ((x : ℕ) → has_address a x ≡ true → has_address b x ≡ true)
is_subnet_of_iff a b na nb = (
  λ h x hx.
      let w = is_subnet_of→Within a b h in
      let r = (has_address_iff a x na).0 hx in
      (has_address_iff b x nb).1 (omega (arith, w.low, r), omega (arith, w.high, r)),
  λ all.
      let pos = num_addresses-pos a in
      let first =
        (has_address_iff b a.address nb).0
          (all a.address ((has_address_iff a a.address na).1 (omega arith, omega (arith, pos)))) in
      let last = (has_address_iff b (broadcast_address a) nb).0 (
        all (broadcast_address a)
          ((has_address_iff a (broadcast_address a) na).1 (omega (arith, pos), omega arith))) in
      Within→is_subnet_of a b (record { low = first.0; high = last.1 }),
)

two_pow-lt : (i j : ℕ) → i < j → 2 ^ i < 2 ^ j
two_pow-lt i j h = omega (
  arith,
  pow-suc 2 i,
  one-le-pow i 2 (omega arith),
  pow-le-pow_right {n = 2} (omega arith) {i = suc i} {j = j} h,
)

two_pow_injective : (i j : ℕ) → 2 ^ i ≡ 2 ^ j → i ≡ j
two_pow_injective i j e = elim (dec_lt i j) [
  | yes h ↦ absurd (omega (arith, two_pow-lt i j h))
  | no h ↦ elim (dec_lt j i) [
    | yes k ↦ absurd (omega (arith, two_pow-lt j i k))
    | no k ↦ omega arith
  ]
]

-- Networks that lie in one another are the same.
pub Within-antisym : (a b : Network) → IsNetwork a → IsNetwork b → Within a b → Within b a → a ≡ b
Within-antisym a b na nb h k =
    let pa = num_addresses-pos a in
    let pb = num_addresses-pos b in
    let address : a.address ≡ b.address = omega (arith, h.low, k.low) in
    let size : num_addresses a ≡ num_addresses b =
      omega (arith, h.low, h.high, k.low, k.high, pa, pb) in
    let host : 32 - a.prefixlen ≡ 32 - b.prefixlen = two_pow_injective _ _ size in
    let prefix : a.prefixlen ≡ b.prefixlen = omega (arith, na.prefix_le, nb.prefix_le) in
    λ i. record { address = address i; prefixlen = prefix i }

-- A network that lies in another one has at most as many addresses, and fewer if they differ.
pub Within-fewer :
    (a b : Network)
    → IsNetwork a
    → IsNetwork b
    → Within a b
    → (a ≡ b → ⊥)
    → num_addresses a < num_addresses b
Within-fewer a b na nb h differ = elim (dec_lt (num_addresses a) (num_addresses b)) [
  | yes l ↦ l
  | no l ↦
      let pa = num_addresses-pos a in
      let pb = num_addresses-pos b in
      absurd (
        differ (
          Within-antisym a b na nb h
            (record { low = omega (arith, h.low, h.high); high = omega (arith, h.low, h.high) })))
]

-- Of two different networks, the one that lies in the other has the longer prefix.
pub Within-prefixlen :
    (a b : Network)
    → IsNetwork a
    → IsNetwork b
    → Within a b
    → (a ≡ b → ⊥)
    → b.prefixlen < a.prefixlen
Within-prefixlen a b na nb h differ = elim (dec_lt b.prefixlen a.prefixlen) [
  | yes l ↦ l
  | no l ↦ absurd (
      omega (
        arith,
        Within-fewer a b na nb h differ,
        pow-le-pow_right {n = 2} (omega arith) {i = 32 - b.prefixlen} {j = 32 - a.prefixlen}
            (omega arith),
      ))
]
