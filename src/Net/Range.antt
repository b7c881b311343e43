-- ===== src/Net/Range.antt =====
-- A network is the range of addresses from its own address to its broadcast address.
use native.Mathlib.Nat.{
  one-le-pow, div-mul-le_self, lt-div-mul-add, div-eq_of_lt-le, div-lt_iff_lt-mul, mul-le-mul_right,
  one-le-mul, mul_comm,
}
use umbrella_linux.Base.{
  ℕ, suc, ◌+◌, ◌-◌, ◌*◌, ◌/◌, ◌^◌, ◌≤◌, ◌<◌, ◌≡◌, ◌↔◌, true, arith, ==_iff, nat_eq, ap, ◌∙◌,
}
use umbrella_linux.Net.{
  Network, IsNetwork, num_addresses, broadcast_address, has_address, address_limit,
}
use umbrella_linux.Net.Mask.{two_pow_32}

pub block_iff : (s n a : ℕ) → 0 < s → n / s * s ≡ n → (a / s * s ≡ n) ↔ ((n ≤ a) × (a < n + s))
block_iff s n a pos aligned = (
  λ e.
      (omega (arith, div-mul-le_self a s, e), omega (arith, lt-div-mul-add {a = a} {b = s} pos, e)),
  λ (low, high).
      ap (λ (q : ℕ). q * s) (div-eq_of_lt-le s {m = a} (omega (arith, low)) (omega (arith, high)))
      ∙ aligned,
)

pub num_addresses-pos : (n : Network) → 0 < num_addresses n
num_addresses-pos n = one-le-pow (32 - n.prefixlen) 2 (omega arith)

-- The addresses of a network are those of its range.
pub has_address_iff :
    (n : Network) (a : ℕ)
    → IsNetwork n
    → (has_address n a ≡ true) ↔ ((n.address ≤ a) × (a ≤ broadcast_address n))
unfolding has_address
has_address_iff n a h =
    let b = block_iff (num_addresses n) n.address a (num_addresses-pos n) h.aligned in
    let pos = num_addresses-pos n in
    (
      λ e. (let r = b.0 ((==_iff _ _).0 e) in (r.0, omega arith)),
      λ r. (==_iff _ _).1 (b.1 (r.0, omega arith)),
    )

-- A block of `s` addresses that starts at a multiple of `s` lies in one block of `s * t` addresses.
pub block_in_block :
    (s t a : ℕ) → 0 < s → 0 < t → a / s * s ≡ a → a + s ≤ a / (s * t) * (s * t) + s * t
block_in_block s t a ps pt aligned =
    let m = (a / (s * t) + 1) * t in
    let below : a < m * s = omega (arith, lt-div-mul-add {a = a} {b = s * t} (one-le-mul ps pt)) in
    let q : a / s < m = (div-lt_iff_lt-mul ps).1 below in
    omega (arith, mul-le-mul_right {m = suc (a / s)} {n = m} s q, aligned)

-- The addresses of a network have 32 bits.
pub has_address-lt :
    (n : Network) (a : ℕ) → IsNetwork n → has_address n a ≡ true → a < address_limit
has_address-lt n a v h =
    let limit = two_pow_32 n.prefixlen v.prefix_le in
    let r = (has_address_iff n a v).0 h in
    let b =
      block_in_block (num_addresses n) (2 ^ n.prefixlen) n.address (num_addresses-pos n)
        (one-le-pow n.prefixlen 2 (omega arith)) v.aligned in
    let all : num_addresses n * 2 ^ n.prefixlen ≡ address_limit = mul_comm _ _ ∙ limit in
    let below = rw all at b in omega arith
