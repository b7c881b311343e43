-- ===== src/Net/Parsed.antt =====
-- What the readers of addresses and networks give is in range.
use umbrella_linux.Base.{
  ℕ, zero, suc, ◌+◌, ◌-◌, ◌≤◌, ◌<◌, ◌≡◌, inl, inr, List, [], ◌∷◌, Text, nat_eq, ◌==◌, ==_iff,
  leb_iff, ok, map_result, after_bind, after_known, ok-injective, All, arith, Bool-cases, subst,
}
use umbrella_linux.Text.{split, value}
use umbrella_linux.Net.{
  Network, IsNetwork, address_limit, netmask, masked, parse_octet, parse_octets, four, ip_address,
  find_mask, mask_prefix, parse_prefix, strict_network, network_of_parts, ip_network,
}

parse_octet-lt : (s : Text) (v : ℕ) → parse_octet s ≡ ok v → v < 256
unfolding parse_octet
parse_octet-lt [] v h = absurd (cc)
parse_octet-lt (c ∷ s) v h = ground (arith)

parse_octets-lt :
    (l : List Text) (vs : List ℕ) → map_result parse_octet l ≡ ok vs → All (λ v. v < 256) vs
parse_octets-lt [] vs h = subst (All (λ v. v < 256)) (ok-injective [] vs h) tt
parse_octets-lt (s ∷ l) vs h =
    after_known (parse_octet s) _ vs
      (λ v is h1.
        after_known (map_result parse_octet l) _ vs
          (λ rest parsed h2.
            subst (All (λ v. v < 256)) (ok-injective (v ∷ rest) vs h2)
              (parse_octet-lt s v is, parse_octets-lt l rest parsed))
          h1)
      h

four-lt : (vs : List ℕ) (a : ℕ) → All (λ v. v < 256) vs → four vs ≡ ok a → a < address_limit
unfolding four
four-lt (a ∷ b ∷ c ∷ e ∷ []) x (ha, (hb, (hc, (he, _)))) h = ground arith
four-lt _ a all h = absurd (cc)

pub ip_address-lt : (s : Text) (a : ℕ) → ip_address s ≡ ok a → a < address_limit
unfolding ip_address parse_octets
ip_address-lt s a h =
    after_known (map_result parse_octet (split b'.' s)) _ a
      (λ vs parsed h1. four-lt vs a (parse_octets-lt (split b'.' s) vs parsed) h1) h

find_mask-lt : (k p m q : ℕ) → find_mask k p m ≡ ok q → q < p + k
unfolding find_mask
find_mask-lt zero p m q h = absurd (cc)
find_mask-lt (suc k) p m q h = elim (Bool-cases (netmask p == m)) [
  | inl same ↦ ground arith
  | inr other ↦ (let r = find_mask-lt k (p + 1) m q (ground arith) in omega arith)
]

mask_prefix-le : (s : Text) (q : ℕ) → mask_prefix s ≡ ok q → q ≤ 32
unfolding mask_prefix
mask_prefix-le s q h =
    after_bind (ip_address s) _ q
      (λ m h1. ground (arith, find_mask-lt 33 0 m q, find_mask-lt 33 0 (address_limit - 1 - m) q)) h

parse_prefix-le : (s : Text) (q : ℕ) → parse_prefix s ≡ ok q → q ≤ 32
unfolding parse_prefix
parse_prefix-le [] q h = absurd (cc)
parse_prefix-le (c ∷ s) q h = ground (arith, mask_prefix-le (c ∷ s) q, leb_iff (value 0 (c ∷ s)) 32)

strict_network-IsNetwork :
    (a p : ℕ) (n : Network) → a < address_limit → p ≤ 32 → strict_network a p ≡ ok n → IsNetwork n
unfolding strict_network
strict_network-IsNetwork a p n ha hp h = elim (Bool-cases (masked p a == a)) [
  | inl e ↦
      let made : record { address = a; prefixlen = p } ≡ n = ok-injective _ n (rw e at h) in
      subst IsNetwork made
        (record { prefix_le = hp; address_lt = ha; aligned = (==_iff (masked p a) a).0 e })
  | inr e ↦ absurd (cc (rw e at h))
]

network_of_parts-IsNetwork : (l : List Text) (n : Network) → network_of_parts l ≡ ok n → IsNetwork n
unfolding network_of_parts
network_of_parts-IsNetwork [] n h = absurd (cc)
network_of_parts-IsNetwork (a ∷ []) n h =
    after_known (ip_address a) _ n
      (λ x is. strict_network-IsNetwork x 32 n (ip_address-lt a x is) (omega arith)) h
network_of_parts-IsNetwork (a ∷ p ∷ []) n h =
    after_known (ip_address a) _ n
      (λ x is h1.
        after_known (parse_prefix p) _ n
          (λ q length_is.
            strict_network-IsNetwork x q n (ip_address-lt a x is) (parse_prefix-le p q length_is))
          h1)
      h
network_of_parts-IsNetwork (_ ∷ _ ∷ _ ∷ _) n h = absurd (cc)

-- Every network that is read from a text has a prefix length of at most 32, an address of 32 bits, and
-- no host bits.
pub ip_network-IsNetwork : (s : Text) (n : Network) → ip_network s ≡ ok n → IsNetwork n
unfolding ip_network
ip_network-IsNetwork s n h = network_of_parts-IsNetwork (split b'/' s) n h
