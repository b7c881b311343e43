-- ===== src/ReverseZones/Complete.antt =====
-- All files of the reverse zones can be printed.
use umbrella_linux.Base.{
  ◌≡◌, refl, ok-injective, ◌∙◌, Bool, true, false, List, some, Text, ok, In, All, All-In, inl, inr,
  ◌<◌, subst, sym, if◌then◌else◌, option_eq, text_eq,
}
use umbrella_linux.Base.Dict.{lookup, values}
use umbrella_linux.Base.Places.{map_result_total, values-In, In-values}
use umbrella_linux.Text.{codes}
use umbrella_linux.Xml.{Dom}
use umbrella_linux.Net.{Network, network_eq, IsNetwork}
use umbrella_linux.Networks.{read_networks}
use umbrella_linux.Networks.Read.{read_networks-AreNetworks}
use umbrella_linux.FuncHosts.{host_of}
use umbrella_linux.RevZones.{find_classful, network_zone_name, classful_nets}
use umbrella_linux.RevZones.Served.{find_classful_self}
use umbrella_linux.RevZones.Configured.{read_networks-find_classful}
use umbrella_linux.RevZones.Names.{network_zone_name_total}
use umbrella_linux.ReverseZones.{
  Setting, Record, ReverseZone, reverse_zone, reverse_zones, zone_files, delegations, pointers,
}
use umbrella_linux.ReverseZones.Files.{StandsFor}
use umbrella_linux.ReverseZones.Listed.{zone_files-StandsFor}
use umbrella_linux.ReverseZones.Servers.{linking_of-In}
use umbrella_linux.ReverseZones.Printable.{
  IsWide, HasFunctions, classless_short_name_total, delegations_total, pointers_total,
}

-- A zone is printed once its network is known, and what its name, its router and its lines need.
reverse_zone_total :
    (s : Setting) (name : Text) (link : Bool) (net netc : Network) (zonename router : Text)
    (records : List Record)
    → StandsFor s name link net
    → find_classful net s.classfulnets ≡ some netc
    → network_zone_name net netc ≡ ok zonename
    → host_of (codes "router") s.hosts ≡ ok router
    → (if link then delegations s net netc router else pointers s net) ≡ ok records
    → (zone : ReverseZone) × (reverse_zone s name ≡ ok zone)
unfolding reverse_zone StandsFor
reverse_zone_total s name link net netc zonename router records (params, e, is, at) found named
      routed made =
    rw (e, at, is, found, named, routed, made) (_, refl)

module _ (d : Dom) (root : d.Element) (s : Setting) (router : Text)
    (read : read_networks d root ≡ ok s.networks)
    (classful : classful_nets s.networks ≡ ok s.classfulnets)
    (wide : All (λ (_, n). n.prefixlen < 32) s.networks)
    (routed : lookup (some (codes "router")) s.hosts.funchosts ≡ some router)
    (functions : HasFunctions s) where
  values-IsWide : (n : Network) → In n (values s.networks) → IsWide n
  values-IsWide n i =
      let (t, j) = values-In n s.networks i in
      record {
        valid =
            All-In (λ (_, m). IsNetwork m) s.networks
              (read_networks-AreNetworks d root s.networks read).0 (t, n) j;
        below = All-In (λ (_, m). m.prefixlen < 32) s.networks wide (t, n) j;
      }

  router_named : host_of (codes "router") s.hosts ≡ ok router
  unfolding host_of
  router_named = rw routed refl

  file_total :
      (name : Text)
      → In name (zone_files s)
      → (zone : ReverseZone) × (reverse_zone s name ≡ ok zone)
  file_total name i =
      let (_, _, kinds) = zone_files-StandsFor d root s read in
      elim (kinds name i) [
        | inl (n, linked, stands) ↦
            let (zonename, named) = network_zone_name_total n n (inl refl) in
            let (records, made) = delegations_total s n n router values-IsWide in
            reverse_zone_total s name true n n zonename router records stands
              (find_classful_self n s.classfulnets (linking_of-In s n linked)) named router_named
              made
        | inr (t, n, j, served, stands) ↦
            let (_, (classes, netc, computed, found, _, _, _)) =
              read_networks-find_classful d root s.networks t n read j served in
            let same : classes ≡ s.classfulnets =
              ok-injective classes s.classfulnets (sym computed ∙ classful) in
            let short =
              classless_short_name_total n netc (values-IsWide n (In-values t n s.networks j)) in
            let (zonename, named) = network_zone_name_total n netc (inr short) in
            let (records, made) = pointers_total s n functions in
            reverse_zone_total s name false n netc zonename router records stands
              (subst (λ l. find_classful n l ≡ some netc) same found) named router_named made
      ]

  -- Every file that the bundle lists for the reverse zones can be printed, if the networks are those of
  -- umbrella.xml and each of them has two addresses at least, there is a router, and every function of
  -- `funchosts` has a text and a main address.
  pub reverse_zones_total : (zones : List ReverseZone) × (reverse_zones s ≡ ok zones)
  unfolding reverse_zones
  reverse_zones_total = map_result_total (reverse_zone s) (zone_files s) file_total
