-- ===== src/ReverseZones/Servers.antt =====
-- The address of a server leads back to its name.
use umbrella_linux.Base.{
  ℕ, ◌≤◌, ◌<◌, ◌≡◌, ◌≢◌, refl, sym, ◌∙◌, ap, subst, true, false, not, ◌⊎◌, inl, inr, List, Option,
  some, Text, ok, ok-injective, In, In-keep, keep-In, All-In, In→contains, contains, option_eq,
  text_eq, ◌++◌, ◌∷◌,
}
use mathlib.Core.Option.{some-injective}
use umbrella_linux.Base.Dict.{lookup, values}
use umbrella_linux.Base.Places.{In-values}
use umbrella_linux.Xml.{Dom}
use umbrella_linux.Net.{Network, network_eq, IsNetwork, has_address}
use umbrella_linux.Networks.{read_networks}
use umbrella_linux.Networks.Subnet.{Within, is_subnet_of_iff, Within→is_subnet_of}
use umbrella_linux.RevZones.{
  find_classful, is_served, classful_nets, linking_nets, network_zone_name, host_rev_ip,
}
use umbrella_linux.RevZones.Wrapping.{IsClassful}
use umbrella_linux.RevZones.Served.{find_classful-In}
use umbrella_linux.RevZones.Names.{reverse_name, host_rev_ip-network_zone_name}
use umbrella_linux.RevZones.Configured.{read_networks-find_classful}
use umbrella_linux.ReverseZones.{Setting, ReverseZone, reverse_zones, linking_of}
use umbrella_linux.ReverseZones.Listed.{zone_files-StandsFor}
use umbrella_linux.ReverseZones.Delegated.{IsInner}
use umbrella_linux.ReverseZones.Resolved.{LeadsTo, file_zone, own_zone-pointed, link_zone-renamed}

-- A classful network that is none of the system's has a linking zone.
In-linking_of :
    (s : Setting) (c : Network)
    → In c s.classfulnets
    → contains (values s.networks) c ≡ false
    → In c (linking_of s)
unfolding linking_nets
In-linking_of s c i other =
    In-keep (λ n. not (contains (values s.networks) n)) c s.classfulnets i (rw other refl)

-- A linking network is one of the classful networks.
pub linking_of-In : (s : Setting) (c : Network) → In c (linking_of s) → In c s.classfulnets
unfolding linking_nets
linking_of-In s c i = (keep-In (λ n. not (contains (values s.networks) n)) c s.classfulnets i).0

-- In a zone around an address, the two names make the name that the DNS asks for.
lookup_name :
    (c : Network) (a : ℕ) (zone : Text)
    → IsClassful c
    → 8 ≤ c.prefixlen
    → c.prefixlen < 32
    → has_address c a ≡ true
    → network_zone_name c c ≡ ok zone
    → host_rev_ip a c ++ (b'.' ∷ zone) ≡ reverse_name a
lookup_name c a zone whole low high inside named =
    let (spelled, is, e) = host_rev_ip-network_zone_name c a whole low high inside in
    subst (λ z. host_rev_ip a c ++ (b'.' ∷ z) ≡ reverse_name a)
      (ok-injective spelled zone (sym is ∙ named)) e

-- What is known of the network that `find_classful` gives.
record IsAround (s : Setting) (n netc : Network) : Type 0 where
  valid : IsNetwork n
  around_valid : IsNetwork netc
  whole : IsClassful netc
  inside : Within n netc
  member : In netc s.classfulnets

find_classful-IsAround :
    (d : Dom) (root : d.Element) (s : Setting) (t : Text) (n netc : Network)
    → read_networks d root ≡ ok s.networks
    → classful_nets s.networks ≡ ok s.classfulnets
    → In (t, n) s.networks
    → is_served t ≡ true
    → find_classful n s.classfulnets ≡ some netc
    → IsAround s n netc
find_classful-IsAround d root s t n netc read classful i served found =
    let (valid, (classes, zone_net, computed, class_found, class_valid, whole, inside)) =
      read_networks-find_classful d root s.networks t n read i served in
    let classes_same : classes ≡ s.classfulnets =
      ok-injective classes s.classfulnets (sym computed ∙ classful) in
    let same : zone_net ≡ netc =
      some-injective zone_net netc (sym class_found ∙ ap (find_classful n) classes_same ∙ found) in
    record {
      valid = All-In (λ (_, m). IsNetwork m) s.networks (valid.0) (t, n) i;
      around_valid = subst IsNetwork same class_valid;
      whole = subst IsClassful same whole;
      inside = subst (Within n) same inside;
      member = find_classful-In n netc s.classfulnets found;
    }

-- The answer by way of the linking zone.
linked_answer :
    (s : Setting) (zones : List ReverseZone) (d : Dom) (root : d.Element) (n netc : Network) (a : ℕ)
    (own host : Text)
    → read_networks d root ≡ ok s.networks
    → reverse_zones s ≡ ok zones
    → IsAround s n netc
    → has_address netc a ≡ true
    → 8 ≤ netc.prefixlen
    → netc.prefixlen < 32
    → contains (values s.networks) netc ≡ false
    → In n (values s.networks)
    → n ≢ netc
    → IsInner n a
    → network_zone_name n netc ≡ ok own
    → LeadsTo zones (host_rev_ip a n ++ (b'.' ∷ own)) host
    → LeadsTo zones (reverse_name a) host
linked_answer s zones d root n netc a own host read printed facts within low high foreign known
      other inner named answer =
    let (link, _, _) = zone_files-StandsFor d root s read in
    let (name, listed, stands) = link netc (In-linking_of s netc facts.member foreign) in
    let (zone, zone_in, zone_printed) = file_zone s zones name true netc printed listed stands in
    let (zone_named, renamed_answer) =
      link_zone-renamed s zones n netc a own host zone zone_in zone_printed facts.member known
        facts.inside other inner named answer in
    subst (λ z. LeadsTo zones z host)
      (lookup_name netc a zone.origin facts.whole low high within zone_named) renamed_answer

-- Where the networks are those of umbrella.xml and all files of the reverse zones can be printed, the
-- DNS answers a lookup of the main address of a server, which lies in a network that reverse zones are
-- made for, by the name of the server: directly if the zone of the network is classful, and by way
-- of a linking zone if the classful network around it is none of the system's and the address is
-- neither the first nor the last one of the network. The classful network has one, two or three octets.
pub reverse_zones-LeadsTo :
    (d : Dom) (root : d.Element) (s : Setting) (zones : List ReverseZone) (t : Text)
    (n netc : Network) (function : Option Text) (a : ℕ) (host : Text)
    → read_networks d root ≡ ok s.networks
    → classful_nets s.networks ≡ ok s.classfulnets
    → reverse_zones s ≡ ok zones
    → In (t, n) s.networks
    → is_served t ≡ true
    → find_classful n s.classfulnets ≡ some netc
    → 8 ≤ netc.prefixlen
    → netc.prefixlen < 32
    → (n ≡ netc) ⊎ ((contains (values s.networks) netc ≡ false) × IsInner n a)
    → lookup function s.hosts.funchosts ≡ some host
    → lookup function s.funcifs ≡ some a
    → has_address n a ≡ true
    → LeadsTo zones (reverse_name a) host
reverse_zones-LeadsTo d root s zones t n netc function a host read classful printed i served found
      low high cases named at inside =
    let facts = find_classful-IsAround d root s t n netc read classful i served found in
    let (_, serve, _) = zone_files-StandsFor d root s read in
    let (listed, stands) = serve t n i served in
    let (own, own_in, own_printed) = file_zone s zones _ false n printed listed stands in
    let (own_named, answer) =
      own_zone-pointed s zones n netc function a host own own_in own_printed found at inside
        named in
    let within =
      (is_subnet_of_iff n netc facts.valid facts.around_valid).0
        (Within→is_subnet_of n netc facts.inside) a inside in
    elim cases [
      | inl same ↦
          subst (λ z. LeadsTo zones z host)
            (subst (λ c. host_rev_ip a c ++ (b'.' ∷ own.origin) ≡ reverse_name a) (sym same)
              (lookup_name netc a own.origin facts.whole low high within
                (subst (λ c. network_zone_name c netc ≡ ok own.origin) same own_named)))
            answer
      | inr (foreign, inner) ↦
          let known = In-values t n s.networks i in
          let other : n ≢ netc = λ e. cc (
            foreign,
            In→contains (values s.networks) netc (subst (λ z. In z (values s.networks)) e known),
          ) in
          linked_answer s zones d root n netc a own.origin host read printed facts within low high
            foreign known other inner own_named answer
    ]
