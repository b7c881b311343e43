-- ===== src/Tests/Zones.antt =====
-- Runs of the files of the reverse zones.
use umbrella_linux.Base.{
  none, ◌≡◌, refl, contains, true, false, List, [], ◌∷◌, some, Text, ok, ℕ_discrete, nat_eq,
  text_eq, text_discrete, option_eq,
}
use umbrella_linux.Base.Dict.{insert, has_key, erase, lookup, values}
use umbrella_linux.Text.{lower, skip_spaces, strip, codes, split, join, decimal, starts_with}
use umbrella_linux.Text.Keyed.{sorted_by}
use umbrella_linux.Text.Order.{text_leb, sorted}
use umbrella_linux.Text.Suffix.{trailing_digits}
use umbrella_linux.Interfaces.{pubif, secif, dmz_if, drop_last_two}
use umbrella_linux.Net.{
  Network, network_eq, ip_network, ip_address, strict_network, has_address, has_network,
  print_network, print_address, add_address, sub_address,
}
use mathlib.Core.List.{flatten}
use umbrella_linux.Net.Each.{count_up, addresses}
use umbrella_linux.Networks.{
  check_intersections, internal_nets, read_dhcp, read_networks, is_subnet_of,
}
use umbrella_linux.BaseParams.{read_domain_name}
use umbrella_linux.Addresses.{
  first_value, interface_text, is_public, main_value, note_address, note_function, note_server_if,
  note_text, read_functions, read_server_ifs, stripped,
}
use umbrella_linux.FuncHosts.{
  read_servers, find_services, has_host, ldap_uris, note_server, ntp_server, smtp_server,
  xmpp_server, Hosts, host_of,
}
use umbrella_linux.RevZones.{
  classful_nets, classful_wrapper, linking_nets, find_classful, is_served, host_rev_ip,
  network_zone_name, classless_short_name,
}
use umbrella_linux.ReverseZones.{
  Setting, ns, cname, ptr, ReverseZone, reverse_zones, zone_files, inner_addresses, record_line,
}
use umbrella_linux.Routers.{
  find_entries, note_entry, only, has_text, seen_from_outside, own_address, nat_address,
}
use umbrella_linux.Addresses.{read_router_ifs, read_router_loop, read_host_ifs, note_host_if}
use umbrella_linux.Firewall.{stripped_child}
use umbrella_linux.Canonical.{find_canonical, note_zone}
use umbrella_linux.BaseParams.{read_domains, read_domain, read_localized}
use umbrella_linux.Networks.{read_ip_addr}
use umbrella_linux.ReverseZones.Scripts.{Client, run_base_params, run_networks, run_networking}
use umbrella_linux.ReverseZones.Template.{read_setting}
use umbrella_linux.Tests.Tree.{Forest, branch, Xml, xml, leaf, empty, root_of, named}
use umbrella_linux.Xml.{child_text, find_str, has_child, find_text}

-- A server with one interface.
abbrev pub server : Text → Text → Text → Forest → Forest
server name function ip rest =
    branch (codes "server")
      (leaf (codes "name") name (
        leaf (codes "function") function (
          branch (codes "pubif")
            (leaf (codes "ip") ip (
              leaf (codes "dev") (codes "eth0")
                (leaf (codes "mac") (codes "02:00:00:00:00:01") empty)))
            empty)))
      rest

-- The names that have to be there.
abbrev names : Forest → Forest
names rest = leaf (codes "system_name") (codes "umbrella") (
    leaf (codes "long_name") (codes "Umbrella") (
      leaf (codes "location") (codes "Donetsk") (
        leaf (codes "state") (codes "Donetsk") (
          leaf (codes "country") (codes "Ukraine")
            (leaf (codes "country_code") (codes "UA") rest)))))

abbrev pub config : Xml
config = root_of (
    names (
      leaf (codes "pubnet") (codes "10.0.0.0/29") (
        leaf (codes "secnet") (codes "10.1.0.0/16") (
          leaf (codes "DMZnet") (codes "192.168.1.0/24") (
            leaf (codes "SMTP_outbound_relay") (codes "relay.example.org") (
              branch (codes "domain") (leaf (codes "name") (codes "Example.org") empty) (
                server (codes "gw") (codes "router") (codes "10.0.0.1") (
                  server (codes "cfg") (codes "config") (codes "10.0.0.2")
                    (server (codes "px") (codes "proxy") (codes "10.0.0.3") empty)))))))))

-- The host is a server.
abbrev pub client : Client xml
client = record {
  hostname = codes "px.example.org";
  addresses = some (codes "10.0.0.3" ∷ []);
  gethostbyname = λ name. none;
  organization = root_of empty;
  limit = 1000;
}

abbrev pub pub_net : Network
pub_net = record { address = 167772160; prefixlen = 29 }

abbrev pub sec_net : Network
sec_net = record { address = 167837696; prefixlen = 16 }

abbrev pub dmz_net : Network
dmz_net = record { address = 3232235776; prefixlen = 24 }

abbrev pub around : Network
around = record { address = 167772160; prefixlen = 24 }

abbrev pub hosts : Hosts
hosts = record {
  funchosts =
      (some (codes "router"), codes "gw.example.org")
      ∷ (some (codes "config"), codes "cfg.example.org")
      ∷ (some (codes "proxy"), codes "px.example.org")
      ∷ [];
  funchostsshort =
      (some (codes "router"), codes "gw")
      ∷ (some (codes "config"), codes "cfg")
      ∷ (some (codes "proxy"), codes "px")
      ∷ [];
  hostfuncs =
      (codes "gw.example.org", some (codes "router"))
      ∷ (codes "cfg.example.org", some (codes "config"))
      ∷ (codes "px.example.org", some (codes "proxy"))
      ∷ [];
}

abbrev pub setting : Setting
setting = record {
  networks = (pubif, pub_net) ∷ (secif, sec_net) ∷ (dmz_if, dmz_net) ∷ [];
  classfulnets = around ∷ sec_net ∷ dmz_net ∷ [];
  hosts = hosts;
  funcifs =
      (some (codes "router"), 167772161)
      ∷ (some (codes "config"), 167772162)
      ∷ (some (codes "proxy"), 167772163)
      ∷ [];
  domain_name = codes "example.org";
  timestamp = codes "2026010100";
}

pub nets_read : read_networks xml config ≡ ok setting.networks
unfolding read_networks find_text named text_eq text_discrete ℕ_discrete nat_eq ip_network
    ip_address split strict_network
nets_read = refl

pub setting_read : read_setting xml client config (codes "2026010100") ≡ ok setting
unfolding read_setting run_base_params run_networks run_networking find_entries read_router_ifs
    seen_from_outside own_address nat_address read_host_ifs note_host_if find_canonical note_zone
    read_domains read_localized read_ip_addr has_text read_router_loop read_domain only note_entry
    stripped_child read_domain_name named text_eq read_servers find_services lookup insert option_eq
    has_key read_networks ip_network split nat_eq ip_address strict_network check_intersections
    internal_nets ℕ_discrete first_value interface_text is_public main_value note_address
    note_function note_server_if note_text read_functions read_server_ifs stripped erase
    text_discrete has_host host_of ldap_uris note_server ntp_server smtp_server xmpp_server
    has_network read_dhcp classful_nets classful_wrapper network_eq lower skip_spaces strip
    child_text find_str find_text has_child
setting_read = refl

files_listed :
    zone_files setting
    ≡ codes "/etc/bind/zones/link_0_mainzone.rev"
      ∷ codes "/etc/bind/zones/pub_mainzone.rev"
      ∷ codes "/etc/bind/zones/sec_mainzone.rev"
      ∷ codes "/etc/bind/zones/DMZ_mainzone.rev"
      ∷ []
unfolding zone_files count_up linking_nets network_eq ℕ_discrete decimal is_served text_eq
    drop_last_two
files_listed = refl

-- The linking zone of 10.0.0.0/24, for the six inner addresses of 10.0.0.0/29.
abbrev pub link_zone : ReverseZone
link_zone = record {
  origin = codes "0.0.10.in-addr.arpa";
  router = codes "gw.example.org";
  records =
      ns [] (codes "gw.example.org")
      ∷ ns (codes "1-6") (codes "gw.example.org")
      ∷ cname (codes "1") (codes "1.1-6")
      ∷ cname (codes "2") (codes "2.1-6")
      ∷ cname (codes "3") (codes "3.1-6")
      ∷ cname (codes "4") (codes "4.1-6")
      ∷ cname (codes "5") (codes "5.1-6")
      ∷ cname (codes "6") (codes "6.1-6")
      ∷ [];
}

abbrev pub pub_zone : ReverseZone
pub_zone = record {
  origin = codes "1-6.0.0.10.in-addr.arpa";
  router = codes "gw.example.org";
  records =
      ns [] (codes "gw.example.org")
      ∷ ptr (codes "2") (codes "cfg.example.org")
      ∷ ptr (codes "3") (codes "px.example.org")
      ∷ ptr (codes "1") (codes "gw.example.org")
      ∷ [];
}

abbrev pub bare_zone : Text → ReverseZone
bare_zone origin = record {
  origin = origin;
  router = codes "gw.example.org";
  records = ns [] (codes "gw.example.org") ∷ [];
}

abbrev pub zones : List ReverseZone
zones =
    link_zone
    ∷ pub_zone
    ∷ bare_zone (codes "1.10.in-addr.arpa")
    ∷ bare_zone (codes "1.168.192.in-addr.arpa")
    ∷ []

pub zones_printed : reverse_zones setting ≡ ok zones
unfolding reverse_zones count_up linking_nets network_eq ℕ_discrete split nat_eq decimal
    trailing_digits find_classful network_zone_name host_of lookup option_eq text_eq sorted_by
    text_leb sorted is_served drop_last_two is_subnet_of classless_short_name host_rev_ip
    has_address starts_with print_network print_address join add_address sub_address flatten
    inner_addresses addresses
zones_printed = refl

pub pub_around : find_classful pub_net setting.classfulnets ≡ some around
unfolding find_classful network_eq ℕ_discrete is_subnet_of
pub_around = refl

link_line :
    record_line (cname (codes "1") (codes "1.1-6"))
    ≡ codes "1                                      CNAME 1.1-6\n"
unfolding record_line
link_line = refl

pub pub_served : is_served pubif ≡ true
unfolding is_served text_eq text_discrete ℕ_discrete
pub_served = refl

pub around_foreign : contains (values setting.networks) around ≡ false
unfolding network_eq ℕ_discrete
around_foreign = refl

pub proxy_named : lookup (some (codes "proxy")) hosts.funchosts ≡ some (codes "px.example.org")
unfolding lookup option_eq text_eq text_discrete ℕ_discrete
proxy_named = refl

pub proxy_at : lookup (some (codes "proxy")) setting.funcifs ≡ some 167772163
unfolding lookup option_eq text_eq text_discrete ℕ_discrete
proxy_at = refl

pub proxy_inside : has_address pub_net 167772163 ≡ true
unfolding has_address nat_eq ℕ_discrete
proxy_inside = refl
