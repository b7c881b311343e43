-- ===== src/Tests/Entries.antt =====
-- Runs of the addresses of hosts and of functions, on a concrete tree.
use umbrella_linux.Base.{
  List, ℕ, ◌≡◌, refl, ◌↔◌, [], ◌∷◌, Option, none, some, Text, In, ok, type_error, ◌++◌, nat_eq,
  text_eq, option_eq, ℕ_discrete, text_discrete,
}
use umbrella_linux.Base.Dict.{lookup, insert}
use umbrella_linux.Text.{codes, split, strip, join, decimal}
use umbrella_linux.Interfaces.{iftypes, pubif, secif, winif}
use umbrella_linux.Net.{Network, ip_address, print_address, print_network}
use umbrella_linux.Xml.{find_text, child_text, find_str}
use umbrella_linux.Addresses.{HostIfs, FunctionIfs, read_host_ifs, read_functions}
use umbrella_linux.Addresses.Texts.{HasText, HasAddress}
use umbrella_linux.Addresses.OfHost.{read_host_ifs_iff}
use umbrella_linux.Addresses.OfFunctions.{read_functions-Serves, Serves}
use umbrella_linux.Stanza.{Setting, line, route_lines}
use umbrella_linux.Stanza.Lines.{interface_stanza}
use umbrella_linux.Stanza.Routing.{Contains, IsMethod, interface_stanza-Contains}
use umbrella_linux.Tests.Tree.{Forest, empty, Xml, named, xml, leaf, branch, root_of}

abbrev card : Text → Text → Text → Forest → Forest
card interface address mac rest =
    branch interface
      (leaf (codes "dev") (codes "eth0") (leaf (codes "ip") address (leaf (codes "mac") mac empty)))
      rest

-- A router with two interfaces, and a configuration server with one.
abbrev router_parts : Forest
router_parts = leaf (codes "name") (codes "gw") (
    leaf (codes "function") (codes "router") (
      card secif (codes "10.0.0.1") (codes "m1")
        (card pubif (codes "192.168.1.1") (codes "m2") empty)))

abbrev config_parts : Forest
config_parts =
    leaf (codes "name") (codes "cfg") (
      leaf (codes "function") (codes "config") (card secif (codes " 10.0.0.2 ") (codes "m3") empty))

abbrev servers : Xml
servers =
    root_of (branch (codes "server") router_parts (branch (codes "server") config_parts empty))

abbrev router : Xml
router = record { tag = codes "server"; text = none; attributes = []; children = router_parts }

-- The order is that of the types, in which pubif is before secif.
abbrev router_ifs : HostIfs
router_ifs = record {
  ifs = (pubif, 3232235777) ∷ (secif, 167772161) ∷ [];
  ifdevs = (pubif, codes "eth0") ∷ (secif, codes "eth0") ∷ [];
}

router_ifs_read : read_host_ifs xml router ≡ ok router_ifs
unfolding read_host_ifs named child_text text_eq text_discrete ℕ_discrete nat_eq ip_address split
    strip insert
router_ifs_read = refl

read_host_ifs_iff_example :
    ((v : ℕ)
      → (lookup secif router_ifs.ifs ≡ some v) ↔ (In secif iftypes × HasAddress xml router secif v))
    × ((x : Text)
        → (lookup secif router_ifs.ifdevs ≡ some x)
          ↔ (In secif iftypes × HasText xml router secif (codes "dev") x))
read_host_ifs_iff_example = read_host_ifs_iff xml router router_ifs router_ifs_read secif

abbrev functions : FunctionIfs
functions = record {
  funcifs = (some (codes "router"), 3232235777) ∷ (some (codes "config"), 167772162) ∷ [];
  funcmacs = (some (codes "router"), codes "m2") ∷ (some (codes "config"), codes "m3") ∷ [];
}

functions_read : read_functions xml servers ≡ ok functions
unfolding read_functions named child_text find_text text_eq text_discrete ℕ_discrete nat_eq
    ip_address split strip insert lookup option_eq
functions_read = refl

read_functions-Serves_example :
    ((f : Option Text) (a : ℕ)
      → lookup f functions.funcifs ≡ some a
      → (server : Xml) × In server (named (codes "server") servers.children)
        × Serves xml f a server)
    × ((server : Xml)
        → In server (named (codes "server") servers.children)
        → (f : Option Text) × (a : ℕ) × (b : ℕ) × Serves xml f a server
          × (lookup f functions.funcifs ≡ some b))
read_functions-Serves_example = read_functions-Serves xml servers functions functions_read

-- An interface with no ip element and one static route.
abbrev card_of_guests : Xml
card_of_guests = record {
  tag = winif;
  text = none;
  attributes = [];
  children = leaf (codes "dev") (codes "eth1") empty;
}

abbrev branch_office : Network
branch_office = record { address = 167772160; prefixlen = 8 }

abbrev setting : Setting
setting = record {
  networks = [];
  domain_name = codes "example.org";
  groups = [];
  routerifs = [];
  funcifs = [];
  static_routes = (winif, (branch_office, 3232235777) ∷ []) ∷ [];
}

abbrev stanza : Text
stanza =
    codes
      "# Network for Windows workstations and other insecure devices\nauto eth1\niface eth1 inet manual\n    up ip route add 10.0.0.0/8 via 192.168.1.1 || true \n    down ip route delete 10.0.0.0/8 via 192.168.1.1 || true \n"

stanza_made : interface_stanza xml setting card_of_guests ≡ ok stanza
unfolding interface_stanza named text_eq text_discrete ℕ_discrete lookup find_str route_lines
    print_network print_address join decimal
stanza_made = refl

interface_stanza-Contains_example :
    (dev : Text) × (find_str xml type_error card_of_guests (codes "dev") ≡ ok dev)
    × ((end : Text) × IsMethod xml card_of_guests end
        × Contains stanza (line (codes "iface " ++ dev ++ end)))
    × ((routes : List (Network × ℕ)) (net : Network) (via : ℕ)
        → lookup winif setting.static_routes ≡ some routes
        → In (net, via) routes
        → Contains stanza (route_lines net via))
interface_stanza-Contains_example =
    interface_stanza-Contains xml setting card_of_guests stanza stanza_made
