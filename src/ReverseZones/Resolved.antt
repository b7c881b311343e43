-- ===== src/ReverseZones/Resolved.antt =====
-- Reverse records in the zones of all the files.
use umbrella_linux.Base.{
  ℕ, ◌≡◌, ◌≢◌, refl, sym, ◌∙◌, ap, subst, Bool, true, false, List, [], ◌∷◌, ◌++◌, Option, some,
  Text, ok, In, there, after_known, ok-injective, or_raise, or_raise-some, attribute_error,
  option_eq, text_eq, if◌then◌else◌,
}
use mathlib.Core.Option.{some-injective}
use mathlib.Core.List.{append_assoc}
use umbrella_linux.Base.Places.{map_result-In}
use umbrella_linux.Networks.Subnet.{Within, Within→is_subnet_of}
use umbrella_linux.RevZones.Served.{find_classful_self}
use umbrella_linux.Base.Dict.{lookup, values}
use umbrella_linux.Text.{codes}
use umbrella_linux.Net.{Network, has_address}
use umbrella_linux.FuncHosts.{host_of}
use umbrella_linux.RevZones.{find_classful, network_zone_name, host_rev_ip}
use umbrella_linux.RevZones.Names.{network_zone_name-classless_short_name}
use umbrella_linux.ReverseZones.{
  Setting, Record, ns, cname, ptr, ReverseZone, reverse_zone, reverse_zones, zone_files,
  delegations, pointers,
}
use umbrella_linux.ReverseZones.Files.{StandsFor}
use umbrella_linux.ReverseZones.Delegated.{IsInner, delegations-cname}
use umbrella_linux.ReverseZones.Pointed.{pointers-ptr}

-- The records of the zones lead from a name to a host: one of the zones has a PTR record of that name
-- with this host, or a CNAME record of it whose target leads to the host. It is left open which
-- zones a name server looks into.
pub data LeadsTo (zones : List ReverseZone) : Text → Text → Type 0 where
  pointed :
      (zone : ReverseZone) (owner host : Text)
      → In zone zones
      → In (ptr owner host) zone.records
      → LeadsTo zones (owner ++ (b'.' ∷ zone.origin)) host
  renamed :
      (zone : ReverseZone) (owner target host : Text)
      → In zone zones
      → In (cname owner target) zone.records
      → LeadsTo zones (target ++ (b'.' ∷ zone.origin)) host
      → LeadsTo zones (owner ++ (b'.' ∷ zone.origin)) host

-- What a zone that can be printed consists of.
pub record IsPrinted (s : Setting) (link : Bool) (net : Network) (zone : ReverseZone) : Type 0 where
  netc : Network
  records : List Record
  found : find_classful net s.classfulnets ≡ some netc
  named : network_zone_name net netc ≡ ok zone.origin
  all : zone.records ≡ ns [] zone.router ∷ records
  made : (if link then delegations s net netc zone.router else pointers s net) ≡ ok records

reverse_zone-IsPrinted :
    (s : Setting) (name : Text) (link : Bool) (net : Network) (zone : ReverseZone)
    → StandsFor s name link net
    → reverse_zone s name ≡ ok zone
    → IsPrinted s link net zone
unfolding reverse_zone StandsFor
reverse_zone-IsPrinted s name link net zone (params, e, is, at) h =
    after_known (or_raise attribute_error (find_classful net s.classfulnets)) _ zone
      (λ netc found h1.
        after_known (network_zone_name net netc) _ zone
          (λ zonename named h2.
            after_known (host_of (codes "router") s.hosts) _ zone
              (λ router _ h3.
                after_known (if link then delegations s net netc router else pointers s net) _ zone
                  (λ records made h4.
                    let is_zone = ok-injective _ zone h4 in
                    subst (IsPrinted s link net) is_zone (record {
                      netc = netc;
                      records = records;
                      found = or_raise-some attribute_error _ netc found;
                      named = named;
                      all = refl;
                      made = made;
                    }))
                  h3)
              h2)
          h1)
      (rw (e, at, is) at h)

-- A file of the bundle, and the zone that is printed under its name.
pub file_zone :
    (s : Setting) (zones : List ReverseZone) (name : Text) (link : Bool) (net : Network)
    → reverse_zones s ≡ ok zones
    → In name (zone_files s)
    → StandsFor s name link net
    → (zone : ReverseZone) × In zone zones × IsPrinted s link net zone
unfolding reverse_zones
file_zone s zones name link net h i stands =
    let (zone, printed, member) = map_result-In (reverse_zone s) name (zone_files s) zones h i in
    (zone, member, reverse_zone-IsPrinted s name link net zone stands printed)

-- The server stands in the zone of its network.
pub own_zone-pointed :
    (s : Setting) (zones : List ReverseZone) (n netc : Network) (function : Option Text) (a : ℕ)
    (host : Text) (zone : ReverseZone)
    → In zone zones
    → IsPrinted s false n zone
    → find_classful n s.classfulnets ≡ some netc
    → lookup function s.funcifs ≡ some a
    → has_address n a ≡ true
    → lookup function s.hosts.funchosts ≡ some host
    → (network_zone_name n netc ≡ ok zone.origin)
      × LeadsTo zones (host_rev_ip a n ++ (b'.' ∷ zone.origin)) host
own_zone-pointed s zones n netc function a host zone i p found at inside named =
    let same : p.netc ≡ netc = some-injective p.netc netc (sym p.found ∙ found) in
    (
      subst (λ c. network_zone_name n c ≡ ok zone.origin) same p.named,
      pointed zone (host_rev_ip a n) host i (
          subst (In (ptr (host_rev_ip a n) host)) (sym p.all)
            (there (pointers-ptr s n function a host p.records at inside named p.made))),
    )

-- The name under which the address is looked up is renamed to the one in the zone of its network.
pub link_zone-renamed :
    (s : Setting) (zones : List ReverseZone) (n netc : Network) (a : ℕ) (own host : Text)
    (zone : ReverseZone)
    → In zone zones
    → IsPrinted s true netc zone
    → In netc s.classfulnets
    → In n (values s.networks)
    → Within n netc
    → n ≢ netc
    → IsInner n a
    → network_zone_name n netc ≡ ok own
    → LeadsTo zones (host_rev_ip a n ++ (b'.' ∷ own)) host
    → (network_zone_name netc netc ≡ ok zone.origin)
      × LeadsTo zones (host_rev_ip a netc ++ (b'.' ∷ zone.origin)) host
link_zone-renamed s zones n netc a own host zone i p member known inside other inner named answer =
    let same : p.netc ≡ netc =
      some-injective p.netc netc (sym p.found ∙ find_classful_self netc s.classfulnets member) in
    let around : network_zone_name netc netc ≡ ok zone.origin =
      subst (λ c. network_zone_name netc c ≡ ok zone.origin) same p.named in
    let made : delegations s netc netc zone.router ≡ ok p.records =
      subst (λ c. delegations s netc c zone.router ≡ ok p.records) same p.made in
    let (short, short_named, j) =
      delegations-cname s netc netc n zone.router a p.records known
        (Within→is_subnet_of n netc inside) other inner made in
    let target = host_rev_ip a n ++ (b'.' ∷ short) in
    let spelled : host_rev_ip a n ++ (b'.' ∷ own) ≡ target ++ (b'.' ∷ zone.origin) =
      ap (λ z. host_rev_ip a n ++ (b'.' ∷ z))
        (network_zone_name-classless_short_name n netc short own zone.origin other short_named named
          around)
      ∙ sym (append_assoc (host_rev_ip a n) (b'.' ∷ short) (b'.' ∷ zone.origin)) in
    (
      around,
      renamed zone (host_rev_ip a netc) target host i
          (subst (In (cname (host_rev_ip a netc) target)) (sym p.all) (there j))
          (subst (λ z. LeadsTo zones z host) spelled answer),
    )
