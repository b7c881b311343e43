-- ===== src/RevZones.antt =====
-- Python/21_revzones.py: the classful networks that wrap the networks of the system, and the names of
-- reverse zones and of hosts in them.
pub mod Wrapping
pub mod Served
pub mod Configured
pub mod Zones
pub mod Names
use Prim.Native.Nat.{bit_and}
use umbrella_linux.Base.{
  ℕ, ◌+◌, ◌-◌, ◌*◌, ◌/◌, ◌%◌, ◌^◌, Bool, true, false, not, List, [], ◌∷◌, ◌++◌, Option, none, some,
  Text, ◌==◌, text_eq, nat_eq, if◌then◌else◌, contains, Result, ok, err, attribute_error, keep,
  ◌>>=◌, reverse, drop, take,
}
use umbrella_linux.Base.Dict.{Dict, insert, lookup, values}
use umbrella_linux.Text.{codes, split, join}
use umbrella_linux.Interfaces.{extif, intif, vpnif}
use umbrella_linux.Net.{
  Network, network_eq, broadcast_address, strict_network, has_network, print_address, print_network,
  add_address, sub_address,
}
use umbrella_linux.Networks.{is_subnet_of}

-- The smallest network of a whole number of octets around `N`.
unfoldable pub classful_wrapper : Network → Result Network
classful_wrapper n =
    let newprefixlen = 8 * (n.prefixlen / 8) in
    let addr = bit_and (0x100000000 - 2 ^ (32 - newprefixlen)) n.address in
    strict_network addr newprefixlen

-- `s.add(x)` on a set.
pub add_to_set : Network → List Network → List Network
add_to_set x s = if contains s x then s else s ++ (x ∷ [])

-- `classfulnets` and `cache`.
pub record Wrappers : Type 0 where
  pub classfulnets : List Network
  pub cache : Dict Text Network

-- The wrapper that the cache knows under the same print, or else a new entry.
pub cached : Network → Wrappers → Wrappers
unfolding add_to_set
cached wrapper w = elim (lookup (print_network wrapper) w.cache) [
  | some old ↦ record w { classfulnets = add_to_set old w.classfulnets }
  | none ↦ record {
    classfulnets = add_to_set wrapper w.classfulnets;
    cache = insert (print_network wrapper) wrapper w.cache;
  }
]

-- `T not in set(['extif','intif','vpnif'])`
unfoldable pub is_served : Text → Bool
is_served t = not (contains (extif ∷ intif ∷ vpnif ∷ []) t)

pub add_wrapper : Text → Network → Wrappers → Result Wrappers
unfolding cached is_served
add_wrapper t n w =
    if is_served t
    then (if n.prefixlen % 8 == 0
        then ok (record w { classfulnets = add_to_set n w.classfulnets })
        else (classful_wrapper n >>= λ wrapper. ok (cached wrapper w)))
    else ok w

pub add_wrappers : Dict Text Network → Wrappers → Result Wrappers
unfolding add_wrapper
add_wrappers [] w = ok w
add_wrappers ((t, n) ∷ nets) w = do w' ← add_wrapper t n w; add_wrappers nets w'

-- `if N2 in N1 and N2.size() < N1.size()`: a network of `ipaddress` has no method `size`.
pub drop_subsets_of : Network → List Network → List Network → Result (List Network)
drop_subsets_of n1 [] kept = ok kept
drop_subsets_of n1 (n2 ∷ nets) kept =
    if has_network n1 n2 then err attribute_error else drop_subsets_of n1 nets kept

pub drop_subsets : List Network → List Network → List Network → Result (List Network)
unfolding drop_subsets_of
drop_subsets all [] kept = ok kept
drop_subsets all (n1 ∷ nets) kept = do
  kept' ← drop_subsets_of n1 all kept
  drop_subsets all nets kept'

-- `classfulnets` at the end.
unfoldable pub classful_nets : Dict Text Network → Result (List Network)
unfolding add_wrappers drop_subsets
classful_nets nets = do
  w ← add_wrappers nets (record { classfulnets = []; cache = [] })
  drop_subsets w.classfulnets w.classfulnets w.classfulnets

-- `linkingclassfulnets`, the classful networks that are none of the system's.
unfoldable pub linking_nets : Dict Text Network → List Network → List Network
linking_nets nets classful = keep (λ n. not (contains (values nets) n)) classful

-- `str(a).split('.')[k:]`
octets_from : ℕ → ℕ → List Text
octets_from k a = drop k (split b'.' (print_address a))

-- `classlessShortName(N, NC)`
unfoldable pub classless_short_name : Network → Network → Result Text
unfolding octets_from
classless_short_name n nc = do
  first ← add_address n.address 1
  last ← sub_address (broadcast_address n) 1
  ok (
      join b'-' (octets_from (nc.prefixlen / 8) first)
      ++ (b'-' ∷ join b'-' (octets_from (nc.prefixlen / 8) last)))

first_around : Network → List Network → Option Network
first_around n [] = none
first_around n (c ∷ nets) = if is_subnet_of n c then some c else first_around n nets

-- `findClassful(N, classfulnets)`
unfoldable pub find_classful : Network → List Network → Option Network
unfolding first_around
find_classful n nets = if contains nets n then some n else first_around n nets

-- `l[k-1::-1]` on a list of octets: the first `k` of them backwards, but all of them for `k` = 0,
-- where the index is -1.
back_from : ℕ → List Text → List Text
back_from k l = if k == 0 then reverse l else reverse (take k l)

-- `l[:k-1:-1]`: those behind the first `k` backwards, but none for `k` = 0.
back_to : ℕ → List Text → List Text
back_to k l = if k == 0 then [] else reverse (drop k l)

-- `seq` of `networkZoneName` before the short name is put in front.
classful_parts : Network → List Text
unfolding back_from
classful_parts nc =
    back_from (nc.prefixlen / 8) (split b'.' (print_address nc.address))
    ++ (codes "in-addr" ∷ codes "arpa" ∷ [])

-- `networkZoneName(N, NC, classlessShortName)`. `NC` comes from `findClassful(N, ...)`, which returns
-- `N` itself or a network that differs from it, so `NC is not N` compares the values.
unfoldable pub network_zone_name : Network → Network → Result Text
unfolding classful_parts
network_zone_name n nc =
    if nc == n
    then ok (join b'.' (classful_parts nc))
    else (classless_short_name n nc >>= λ name. ok (join b'.' (name ∷ classful_parts nc)))

-- `hostRevIP(IP, N)`
unfoldable pub host_rev_ip : ℕ → Network → Text
unfolding back_to
host_rev_ip ip n = join b'.' (back_to (n.prefixlen / 8) (split b'.' (print_address ip)))
