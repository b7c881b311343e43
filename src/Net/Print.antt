-- ===== src/Net/Print.antt =====
-- What `ipaddress` prints it reads back.
use umbrella_linux.Base.{
  ℕ, ◌/◌, ◌%◌, ◌^◌, ◌≤◌, ◌<◌, ◌≡◌, ◌≢◌, refl, true, arith, nat_eq, ap, ◌∙◌, All, [], ◌∷◌, ok, Text,
}
use umbrella_linux.Text.{
  split, decimal, Lacks, split-join, decimal_of_lt_thousand, all_digits, all_digits-Lacks,
  value-decimal, decimal-ne-nil, decimal-all_digits, value, split_of_Lacks, split-append,
  join-Lacks,
}
use umbrella_linux.Net.{
  Network, IsNetwork, address_limit, octets, octet_texts, print_address, print_network, parse_octet,
  parse_octets, four, ip_address, ip_network, parse_prefix, network_of_parts, strict_network,
}

parse_octet-decimal : (n : ℕ) → n < 256 → parse_octet (decimal n) ≡ ok n
unfolding parse_octet
parse_octet-decimal n h = ground (arith, decimal_of_lt_thousand n)

parse_octets-octet_texts :
    (a : ℕ) → a < address_limit → parse_octets (octet_texts a) ≡ ok (octets a)
unfolding parse_octets octet_texts
parse_octets-octet_texts a h = simp (
  parse_octet-decimal (a / 2 ^ 24) (omega arith),
  parse_octet-decimal (a / 2 ^ 16 % 256) (omega arith),
  parse_octet-decimal (a / 2 ^ 8 % 256) (omega arith),
  parse_octet-decimal (a % 256) (omega arith),
)

four-octets : (a : ℕ) → a < address_limit → four (octets a) ≡ ok a
unfolding four
four-octets a h = ap ok (omega arith)

decimal-Lacks_slash : (n : ℕ) → Lacks b'/' (decimal n)
decimal-Lacks_slash n = all_digits-Lacks (decimal n) b'/' (decimal-all_digits n) refl

decimal-Lacks_dot : (n : ℕ) → Lacks b'.' (decimal n)
decimal-Lacks_dot n = all_digits-Lacks (decimal n) b'.' (decimal-all_digits n) refl

pub octet_texts-Lacks : (a : ℕ) → All (Lacks b'.') (octet_texts a)
unfolding octet_texts
octet_texts-Lacks a =
    (decimal-Lacks_dot _, (decimal-Lacks_dot _, (decimal-Lacks_dot _, (decimal-Lacks_dot _, tt))))

octet_texts-ne-nil : (a : ℕ) → octet_texts a ≢ []
unfolding octet_texts
octet_texts-ne-nil a = cc

-- The parts of a printed address are its octets.
pub split-print_address : (a : ℕ) → split b'.' (print_address a) ≡ octet_texts a
unfolding print_address
split-print_address a = split-join b'.' (octet_texts a) (octet_texts-ne-nil a) (octet_texts-Lacks a)

-- Every address is read back from its print.
pub ip_address-print_address : (a : ℕ) → a < address_limit → ip_address (print_address a) ≡ ok a
unfolding ip_address
ip_address-print_address a h =
    simp (split-print_address a, parse_octets-octet_texts a h, four-octets a h)

octet_texts-Lacks_slash : (a : ℕ) → All (Lacks b'/') (octet_texts a)
unfolding octet_texts
octet_texts-Lacks_slash a = (
  decimal-Lacks_slash _,
  (decimal-Lacks_slash _, (decimal-Lacks_slash _, (decimal-Lacks_slash _, tt))),
)

print_address-Lacks_slash : (a : ℕ) → Lacks b'/' (print_address a)
unfolding print_address
print_address-Lacks_slash a =
    join-Lacks b'.' b'/' (omega arith) (octet_texts a) (octet_texts-Lacks_slash a)

parse_prefix_of_digits :
    (s : Text) → s ≢ [] → all_digits s ≡ true → value 0 s ≤ 32 → parse_prefix s ≡ ok (value 0 s)
unfolding parse_prefix
parse_prefix_of_digits [] h _ _ = absurd (h refl)
parse_prefix_of_digits (c ∷ s) _ d le = ground arith

parse_prefix-decimal : (n : ℕ) → n ≤ 32 → parse_prefix (decimal n) ≡ ok n
parse_prefix-decimal n h =
    parse_prefix_of_digits (decimal n) (decimal-ne-nil n) (decimal-all_digits n)
      (rw value-decimal h)
    ∙ ap ok (value-decimal n)

strict_network_aligned : (n : Network) → IsNetwork n → strict_network n.address n.prefixlen ≡ ok n
unfolding strict_network
strict_network_aligned n h = ground (arith, h.aligned)

split-print_network :
    (n : Network)
    → split b'/' (print_network n) ≡ print_address n.address ∷ decimal n.prefixlen ∷ []
unfolding print_network
split-print_network n =
    split-append b'/' (print_address n.address) (decimal n.prefixlen)
      (print_address-Lacks_slash n.address)
    ∙ ap (◌∷◌ (print_address n.address))
        (split_of_Lacks b'/' (decimal n.prefixlen) (decimal-Lacks_slash n.prefixlen))

-- Every network is read back from its print.
pub ip_network-print_network : (n : Network) → IsNetwork n → ip_network (print_network n) ≡ ok n
ip_network-print_network n h =
    unfold ip_network in
    rw (split-print_network n) (
      simp (
        network_of_parts,
        ip_address-print_address n.address h.address_lt,
        parse_prefix-decimal n.prefixlen h.prefix_le,
        strict_network_aligned n h,
      ))
