-- ===== src/Networks.antt =====
-- Python/20_networks.py: the networks of the system, the address of the current host, the checks on
-- both, the DHCP range, and the removal of networks that lie in others.
pub mod Read
pub mod Subnet
pub mod Cleanup
pub mod Coverage
pub mod Checks
use umbrella_linux.Base.{
  ℕ, ◌≤◌, ◌≡◌, Bool, true, false, not, ◌&&◌, ◌||◌, List, [], ◌∷◌, ◌++◌, Option, none, some, Text,
  ◌==◌, text_eq, leb, ltb, if◌then◌else◌, contains, Result, ok, err, Exc, attribute_error,
  value_error, template_error, or_raise, raise_if, fold_result, map_result, keep, ◌>>=◌, ◌>>◌, map,
}
use umbrella_linux.Base.Dict.{Dict, insert, erase, lookup, keys}
use umbrella_linux.Text.{codes}
use umbrella_linux.Interfaces.{extif, intif, pubif, secif, dmz_if, vpnif, winif, drop_last_two}
use umbrella_linux.Net.{
  Network, network_eq, broadcast_address, ip_address, ip_network, has_address, has_network,
  print_network,
}
use umbrella_linux.Xml.{Dom, find_text}

-- `a.subnet_of(b)`, and the compatibility code for it.
unfoldable pub is_subnet_of : Network → Network → Bool
is_subnet_of a b = leb b.address a.address && leb (broadcast_address a) (broadcast_address b)

-- `ip_network(t)` and `ip_address(t)`, where `t` may be `None`.
abbrev pub network_of : Option Text → Result Network
network_of none = err value_error
network_of (some s) = ip_network s

abbrev pub address_of : Option Text → Result ℕ
address_of none = err value_error
address_of (some s) = ip_address s

module _ (d : Dom) where
  -- A network that every configuration has.
  pub required_net : d.Element → Text → Result Network
  required_net root name = do t ← find_text d root name; network_of t

  -- A network that is put in the dict if the configuration has it.
  optional_net : d.Element → Text → Text → Dict Text Network → Result (Dict Text Network)
  optional_net root name key nets = elim (d.find root name) [
    | none ↦ ok nets
    | some e ↦ (do n ← network_of (d.text e); ok (insert key n nets))
  ]

  -- `networks`, from the root element of umbrella.xml.
  unfoldable pub read_networks : d.Element → Result (Dict Text Network)
  unfolding required_net optional_net
  read_networks root = do
    pub_net ← required_net root (codes "pubnet")
    sec_net ← required_net root (codes "secnet")
    dmz_net ← required_net root (codes "DMZnet")
    with_ext ←
        optional_net root (codes "extnet") extif
          ((pubif, pub_net) ∷ (secif, sec_net) ∷ (dmz_if, dmz_net) ∷ [])
    with_int ← optional_net root (codes "intnet") intif with_ext
    with_win ← optional_net root (codes "winnet") winif with_int
    optional_net root (codes "vpnet") vpnif with_win

  -- `pub_dhcp`: the first and the last address of the range.
  unfoldable pub read_dhcp : d.Element → Result (Option (ℕ × ℕ))
  read_dhcp root = elim (d.find root (codes "pub_dhcp")) [
    | none ↦ ok none
    | some e ↦ (do
      start_text ← find_text d e (codes "start")
      start ← address_of start_text
      end_text ← find_text d e (codes "end")
      end ← address_of end_text
      raise_if (ltb end start) (
          template_error (
            codes
              "The start DHCP address must be smaller or equal to the end DHCP address in <pub_dhcp> section of umbrella.xml."))
      ok (some (start, end)))
  ]

  -- `DNScache`
  unfoldable pub read_dns_cache : d.Element → Option (List (Option Text))
  read_dns_cache root = elim (d.find root (codes "DNScache")) [
    | none ↦ none
    | some _ ↦ some (map d.text (d.findall root (codes "DNScache")))
  ]

first_in_public : Text → ℕ → Option ℕ → Result (Option ℕ)
first_in_public hostname addr none = ok (some addr)
first_in_public hostname addr (some _) =
    err
      (template_error (codes "Multiple addresses in public network for " ++ hostname ++ codes "."))

-- One address of a host with several: the one in the public network is the host's.
choose_address : Text → Network → Option ℕ → Text → Result (Option ℕ)
unfolding first_in_public
choose_address hostname public found a = do
  addr ← ip_address a
  if has_address public addr then first_in_public hostname addr found else ok found

-- `ip_addr`, from `metadata.addresses`; `gethostbyname` is the resolver, `none` its `socket.error`.
unfoldable pub read_ip_addr :
    (Text → Option Text) → Text → Network → Option (List Text) → Result (Option ℕ)
unfolding choose_address
read_ip_addr gethostbyname hostname public none = ok none
read_ip_addr gethostbyname hostname public (some []) = elim (gethostbyname hostname) [
  | none ↦ ok none
  | some s ↦ (do a ← ip_address s; ok (some a))
]
read_ip_addr gethostbyname hostname public (some (s ∷ [])) = do a ← ip_address s; ok (some a)
read_ip_addr gethostbyname hostname public (some (s ∷ t ∷ more)) =
    fold_result (choose_address hostname public) none (s ∷ t ∷ more)

-- `intnets`, the networks but the external and the intranet one.
unfoldable pub internal_nets : Dict Text Network → Dict Text Network
internal_nets nets = erase intif (erase extif nets)

-- `intnet_ifs`
unfoldable pub intnet_ifs : Dict Text Network → List Text
intnet_ifs nets = keys (internal_nets nets)

-- The message of the check below.
intersects : Text → Network → Text → Network → Exc
intersects t1 n1 t2 n2 = template_error (
    codes "The \""
    ++ drop_last_two t1
    ++ codes "\" network "
    ++ print_network n1
    ++ codes " intersects  the \""
    ++ drop_last_two t2
    ++ codes "\" network "
    ++ print_network n2
    ++ codes ", which is not allowed .")

-- The inner loop: `N2 is not N1 and N2 in N1`. The networks of a dict are objects of their own, so
-- they are the same object exactly under the same key.
check_against : Text → Network → Dict Text Network → Result (Unit {0})
unfolding intersects
check_against t1 n1 [] = ok tt
check_against t1 n1 ((t2, n2) ∷ nets) = do
  raise_if (not (t2 == t1) && has_network n1 n2) (intersects t1 n1 t2 n2)
  check_against t1 n1 nets

check_all : Dict Text Network → Dict Text Network → Result (Unit {0})
unfolding check_against
check_all all [] = ok tt
check_all all ((t1, n1) ∷ nets) = do check_against t1 n1 all; check_all all nets

-- The check that internal networks do not intersect.
unfoldable pub check_intersections : Dict Text Network → Result (Unit {0})
unfolding check_all
check_intersections nets = check_all nets nets

-- What a pair `a, b` adds to `nets_contained`.
contained_pair : Network → Network → List Network
contained_pair a b =
    (if is_subnet_of a b then a ∷ [] else []) ++ (if is_subnet_of b a then b ∷ [] else [])

-- The pairs of `a` with each network behind it.
contained_with : Network → List Network → List Network
unfolding contained_pair
contained_with a [] = []
contained_with a (b ∷ nets) = contained_pair a b ++ contained_with a nets

-- `nets_contained`, over `itertools.combinations(nets, 2)`.
pub contained_nets : List Network → List Network
unfolding contained_with
contained_nets [] = []
contained_nets (a ∷ nets) = contained_with a nets ++ contained_nets nets

-- `nets.difference(nets_contained)`; a set is the list of its elements, in some order.
unfoldable pub cleanup_fully_contained : List Network → List Network
unfolding contained_nets
cleanup_fully_contained nets =
    let contained = contained_nets nets in keep (λ n. not (contains contained n)) nets
