-- ===== src/Tests/Units.antt =====
-- Runs of the USB lists, the OSSEC paths, the domains and the servers, on concrete trees.
use umbrella_linux.Base.{
  ◌≡◌, refl, ◌↔◌, ◌⊎◌, false, ◌&&◌, ◌||◌, List, [], ◌∷◌, none, some, Text, In, ok, err, key_error,
  option_eq, nat_eq, text_eq, ℕ_discrete, text_discrete, some_of,
}
use umbrella_linux.Base.Dict.{lookup, insert}
use umbrella_linux.Text.{codes, starts_with, strip}
use umbrella_linux.Text.Order.{sorted, IsSorted}
use umbrella_linux.Xml.{find_text, find_str, has_child}
use umbrella_linux.Usbdev.{usb_list}
use umbrella_linux.Usbdev.Devices.{usb_list-Names, is_wildcard, Names}
use umbrella_linux.Ossec.{Frame, ignored_paths, ossec_paths, note_path, always_ignored}
use umbrella_linux.Ossec.Callers.{ossec_paths-IsUnderBcfg2, IsUnderBcfg2}
use umbrella_linux.BaseParams.{
  read_domains, read_domain, note_domain, sort_names, stripped_texts, insert_some, DomainLists,
}
use umbrella_linux.FuncHosts.{Hosts, read_servers, note_server, find_services, has_host}
use umbrella_linux.FuncHosts.Roles.{read_servers-IsConsistent, IsConsistent}
use umbrella_linux.FuncHosts.Found.{find_services-key_error}
use umbrella_linux.Tests.Tree.{
  Forest, empty, node, Xml, named, descendants, iter_named, xml, leaf, branch, root_of,
}

-- usbdev.xml with a list for every host, and one for the host h.
abbrev usbdev : Xml
usbdev = root_of (
    branch (codes "blacklist") (leaf (codes "device") (codes "1") empty) (
      branch (codes "blacklist")
        (leaf (codes "host") (codes "h") (leaf (codes "device") (codes "2") empty)) empty))

abbrev device : Xml
device = record { tag = codes "device"; text = some (codes "2"); attributes = []; children = empty }

usb_list-Names_example :
    In device (usb_list xml (codes "h") [] usbdev (codes "blacklist")).devices ↔ (
      (some_of (is_wildcard xml (codes "h") []) (named (codes "blacklist") usbdev.children) ≡ false)
      × Names xml (codes "h") [] device (named (codes "blacklist") usbdev.children))
usb_list-Names_example = usb_list-Names xml (codes "h") [] usbdev (codes "blacklist") device

-- A structure of bcfg2 with one path under /etc and one elsewhere.
abbrev path_of : Text → Forest → Forest
path_of name rest = node (codes "Path") none ((codes "name", name) ∷ []) empty rest

abbrev bundle : Xml
bundle = root_of (path_of (codes "/etc/hosts") (path_of (codes "/usr/x") empty))

abbrev ignored : List Text
ignored =
    codes "/etc/adjtime"
    ∷ codes "/etc/hosts"
    ∷ codes "/etc/hosts.deny"
    ∷ codes "/etc/mtab"
    ∷ codes "/var/ossec/etc/internal_options.conf"
    ∷ codes "/var/ossec/etc/ossec.conf"
    ∷ []

ignored_paths-bundle : ignored_paths xml (some (bundle ∷ [])) ≡ ok ignored
unfolding ignored_paths note_path iter_named descendants lookup starts_with sorted text_eq
    text_discrete nat_eq ℕ_discrete
ignored_paths-bundle = refl

-- A caller with no structures stands nearer than the one that has them.
abbrev callers : List (Frame xml)
callers = none ∷ some none ∷ some (some (bundle ∷ [])) ∷ []

callers-ignored : ossec_paths xml callers ≡ ok ignored
unfolding ossec_paths note_path iter_named descendants lookup starts_with sorted text_eq
    text_discrete nat_eq ℕ_discrete
callers-ignored = refl

ossec_paths-IsUnderBcfg2_example :
    IsSorted ignored
    × (In (codes "/etc/hosts") ignored
        ↔ (In (codes "/etc/hosts") always_ignored ⊎ IsUnderBcfg2 xml callers (codes "/etc/hosts")))
ossec_paths-IsUnderBcfg2_example =
    ossec_paths-IsUnderBcfg2 xml callers ignored (codes "/etc/hosts") callers-ignored

-- umbrella.xml with a domain of its own and one of another master.
abbrev umbrella : Xml
umbrella = root_of (
    branch (codes "domain")
      (leaf (codes "name") (codes "b.org") (leaf (codes "notify") (codes "10.0.0.1") empty))
      (branch (codes "domain")
        (leaf (codes "name") (codes "a.org") (leaf (codes "master") (codes "10.0.0.2") empty))
        empty))

abbrev umbrella_domains : DomainLists
umbrella_domains = record {
  domain_names = some (codes "b.org") ∷ [];
  domain_notifies = (some (codes "b.org"), codes "10.0.0.1" ∷ []) ∷ [];
  domain_axfr = [];
}

umbrella_read : read_domains xml umbrella ≡ ok umbrella_domains
unfolding read_domains read_domain note_domain sort_names stripped_texts insert_some insert
    find_text has_child named sorted text_eq text_discrete nat_eq ℕ_discrete strip
umbrella_read = refl

-- A configuration server that is the proxy as well, and no relay.
abbrev server : Text → Text → Forest → Forest
server name function rest =
    branch (codes "server") (leaf (codes "name") name (leaf (codes "function") function empty)) rest

abbrev servers : Xml
servers = root_of (
    server (codes "c") (codes "config")
      (server (codes "c") (codes "proxy") (leaf (codes "SMTP_outbound_relay") (codes "r") empty)))

abbrev server_hosts : Hosts
server_hosts = record {
  funchosts = (some (codes "config"), codes "c.d") ∷ (some (codes "proxy"), codes "c.d") ∷ [];
  funchostsshort = (some (codes "config"), codes "c") ∷ (some (codes "proxy"), codes "c") ∷ [];
  hostfuncs = (codes "c.d", some (codes "proxy")) ∷ [];
}

servers_read : read_servers xml (codes "d") servers ≡ ok server_hosts
unfolding read_servers note_server insert find_str find_text named option_eq text_eq text_discrete
    ℕ_discrete
servers_read = refl

read_servers-IsConsistent_example :
    IsConsistent xml (codes "d") (some (codes "proxy")) (codes "c.d") server_hosts
read_servers-IsConsistent_example =
    read_servers-IsConsistent xml (codes "d") (some (codes "proxy")) (codes "c.d") servers
      server_hosts servers_read

relay_read : find_text xml servers (codes "SMTP_outbound_relay") ≡ ok (some (codes "r"))
unfolding find_text named text_eq text_discrete ℕ_discrete
relay_read = refl

find_services-key_error_example : (find_services xml servers server_hosts ≡ err key_error) ↔ (
    has_host (codes "config") server_hosts
      && (has_host (codes "DMZxmpp") server_hosts || has_host (codes "proxy") server_hosts)
    ≡ false)
find_services-key_error_example =
    find_services-key_error xml servers (some (codes "r")) server_hosts relay_read
