-- ===== src/Net.antt =====
-- IPv4 addresses and networks, as the standard library's `ipaddress` gives them to the scripts. An
-- address is a number below 2 ^ 32; `ip_address` and `ip_network` read the IPv4 forms only.
pub mod Print
pub mod Range
pub mod Mask
pub mod Parsed
pub mod Each
use umbrella_linux.Base.{
  ℕ, zero, suc, ◌+◌, ◌-◌, ◌*◌, ◌/◌, ◌%◌, ◌^◌, ◌≤◌, ◌<◌, ◌≡◌, refl, Bool, true, false, ◌&&◌, ◌||◌,
  List, [], ◌∷◌, map, Option, none, some, Text, Eq, ◌==◌, nat_eq, leb, ltb, if◌then◌else◌, Result,
  ok, err, value_error, ◌>>=◌, ◌>>◌, raise_if, map_result, or_raise, length, arith, not, ℕ_discrete,
  ◌++◌,
}
use umbrella_linux.Text.{split, join, decimal, value, all_digits}

abbrev pub address_limit : ℕ
address_limit = 2 ^ 32

pub record Network : Type 0 where
  pub address : ℕ
  pub prefixlen : ℕ

unfoldable pub network_discrete : Discrete Network
network_discrete = hlevel ℕ_discrete

instance unfoldable pub network_eq : Eq Network
unfolding network_discrete
network_eq = record { dec = network_discrete }

-- `N.num_addresses`
abbrev pub num_addresses : Network → ℕ
num_addresses n = 2 ^ (32 - n.prefixlen)

abbrev pub broadcast_address : Network → ℕ
broadcast_address n = n.address + num_addresses n - 1

-- `N.netmask`
abbrev pub netmask : ℕ → ℕ
netmask p = address_limit - 2 ^ (32 - p)

-- `a & netmask`, as arithmetic.
abbrev pub masked : ℕ → ℕ → ℕ
masked p a = a / 2 ^ (32 - p) * 2 ^ (32 - p)

-- The octets of an address, the highest first.
abbrev pub octets : ℕ → List ℕ
octets a = a / 2 ^ 24 ∷ a / 2 ^ 16 % 256 ∷ a / 2 ^ 8 % 256 ∷ a % 256 ∷ []

-- The parts of `str(a).split('.')`.
unfoldable pub octet_texts : ℕ → List Text
octet_texts a = map decimal (octets a)

-- `str(a)`
unfoldable pub print_address : ℕ → Text
unfolding octet_texts
print_address a = join b'.' (octet_texts a)

-- `str(N)`, which is `N.with_prefixlen`.
unfoldable pub print_network : Network → Text
print_network n = print_address n.address ++ (b'/' ∷ decimal n.prefixlen)

-- One octet: one to three digits, no leading zero, at most 255.
parse_octet : Text → Result ℕ
parse_octet [] = err value_error
parse_octet (c ∷ s) = do
  raise_if (not (all_digits (c ∷ s))) value_error
  raise_if (ltb 3 (length (c ∷ s))) value_error
  raise_if (c == b'0' && ltb 1 (length (c ∷ s))) value_error
  raise_if (ltb 255 (value 0 (c ∷ s))) value_error
  ok (value 0 (c ∷ s))

four : List ℕ → Result ℕ
four (a ∷ b ∷ c ∷ d ∷ []) = ok (a * 2 ^ 24 + b * 2 ^ 16 + c * 2 ^ 8 + d)
four _ = err value_error

parse_octets : List Text → Result (List ℕ)
unfolding parse_octet
parse_octets = map_result parse_octet

-- `ip_address(s)`
unfoldable pub ip_address : Text → Result ℕ
unfolding parse_octets four
ip_address s = do parts ← parse_octets (split b'.' s); four parts

-- The first prefix length, from `p` on, whose mask is `m`.
find_mask : ℕ → ℕ → ℕ → Result ℕ
find_mask zero p m = err value_error
find_mask (suc k) p m = let rest = find_mask k (p + 1) m in if netmask p == m then ok p else rest

-- A netmask, or else a hostmask, behind the slash.
mask_prefix : Text → Result ℕ
unfolding find_mask
mask_prefix s = do
  m ← ip_address s
  elim (find_mask 33 0 m) [ ok p ↦ ok p | err _ ↦ find_mask 33 0 (address_limit - 1 - m) ]

-- The part behind the slash: a prefix length, or a mask.
parse_prefix : Text → Result ℕ
parse_prefix [] = err value_error
parse_prefix (c ∷ s) =
    if all_digits (c ∷ s) && leb (value 0 (c ∷ s)) 32
    then ok (value 0 (c ∷ s))
    else mask_prefix (c ∷ s)

-- `ip_network((address, prefixlen))`: host bits must be clear.
unfoldable pub strict_network : ℕ → ℕ → Result Network
strict_network a p = do
  raise_if (not (masked p a == a)) value_error
  ok (record { address = a; prefixlen = p })

network_of_parts : List Text → Result Network
network_of_parts (a ∷ []) = do x ← ip_address a; strict_network x 32
network_of_parts (a ∷ p ∷ []) = do x ← ip_address a; n ← parse_prefix p; strict_network x n
network_of_parts _ = err value_error

-- `ip_network(s)`
unfoldable pub ip_network : Text → Result Network
unfolding network_of_parts parse_prefix mask_prefix
ip_network s = network_of_parts (split b'/' s)

-- `a in N` for an address `a`.
unfoldable pub has_address : Network → ℕ → Bool
has_address n a = masked n.prefixlen a == n.address

-- `M in N` for a network `M`: `ipaddress` answers False, whatever the networks are.
unfoldable pub has_network : Network → Network → Bool
has_network n m = false

-- `a + k` and `a - k` raise outside the range of addresses.
unfoldable pub add_address : ℕ → ℕ → Result ℕ
add_address a k = if ltb (a + k) address_limit then ok (a + k) else err value_error

unfoldable pub sub_address : ℕ → ℕ → Result ℕ
sub_address a k = if ltb a k then err value_error else ok (a - k)

-- What `ip_network` guarantees of a network.
pub record IsNetwork (n : Network) : Type 0 where
  pub prefix_le : n.prefixlen ≤ 32
  pub address_lt : n.address < address_limit
  pub aligned : masked n.prefixlen n.address ≡ n.address
