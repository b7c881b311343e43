-- ===== src/Stanza.antt =====
-- Python/30_networking.py: `interface_stanza`, the text of an interface in /etc/network/interfaces.
pub mod Lines
pub mod Routing
use umbrella_linux.Base.{
  ℕ, Bool, true, false, not, ◌&&◌, ◌||◌, List, [], ◌∷◌, ◌++◌, Option, none, some, Text, ◌==◌,
  text_eq, option_eq, contains, if◌then◌else◌, Result, ok, key_error, or_raise, ◌>>=◌,
}
use umbrella_linux.Base.Dict.{Dict, lookup}
use umbrella_linux.Text.{codes}
use umbrella_linux.Interfaces.{extif, intif, pubif, secif, dmz_if, vpnif, winif}
use umbrella_linux.Net.{Network, print_address, print_network}

-- `netnames`
abbrev pub netnames : Dict Text Text
netnames =
    (extif, codes "External network (accesible from Internet directly)")
    ∷ (intif, codes "Legacy organization's intranet")
    ∷ (pubif, codes "Network for public workstations with Internet access")
    ∷ (secif, codes "Network for secured workstations with no Internet access")
    ∷ (dmz_if, codes "DMZ for Internet-accessible servers")
    ∷ (vpnif, codes "Network for workstations, connecting via VPN")
    ∷ (winif, codes "Network for Windows workstations and other insecure devices")
    ∷ []

-- What the function is given beside the interface.
pub record Setting : Type 0 where
  pub networks : Dict Text Network
  pub domain_name : Text
  pub groups : List Text
  pub routerifs : Dict Text ℕ
  pub funcifs : Dict (Option Text) ℕ
  pub static_routes : Dict Text (List (Network × ℕ))

-- A line of the text.
abbrev pub line : Text → Text
line s = s ++ codes "\n"

-- The comment with the name of the network, if it has one.
unfoldable pub name_comment : Text → Text → Text
name_comment before tag = elim (lookup tag netnames) [ none ↦ [] | some name ↦ before ++ name ]

-- The part in front for a bridge to another device.
unfoldable pub bridged_device : Text → Text → Text
unfolding name_comment
bridged_device tag dev =
    if dev == codes "none"
    then []
    else line (codes "# bridged" ++ name_comment (codes " to ") tag)
      ++ line (codes "auto " ++ dev)
      ++ line (codes "iface " ++ dev ++ codes " inet manual")
      ++ codes "\n"

-- The heading of the interface's own part.
unfoldable pub heading : Text → Text
heading tag = elim (lookup tag netnames) [ none ↦ [] | some name ↦ line (codes "# " ++ name) ]

-- The part behind for a bridge.
unfoldable pub bridge_lines : Option Text → Text
bridge_lines none = []
bridge_lines (some dev) =
    line (codes "    bridge_ports " ++ dev)
    ++ codes "    bridge_stp off\n    bridge_fd 0\n    bridge_maxwait 0\n"

-- The two lines of a route.
unfoldable pub route_lines : Network → ℕ → Text
route_lines net via =
    codes "    up ip route add "
    ++ print_network net
    ++ codes " via "
    ++ print_address via
    ++ codes " || true \n"
    ++ codes "    down ip route delete "
    ++ print_network net
    ++ codes " via "
    ++ print_address via
    ++ codes " || true \n"

unfoldable pub all_route_lines : List (Network × ℕ) → Text
all_route_lines [] = []
all_route_lines ((net, via) ∷ routes) = route_lines net via ++ all_route_lines routes

-- The route to the VPN on the router's interface in the DMZ.
unfoldable pub vpn_route : Setting → Text → Text
vpn_route s tag =
    if contains s.groups (codes "router") && tag == dmz_if
    then (elim (lookup (some (codes "DMZvpn")) s.funcifs) [
      | none ↦ []
      | some via ↦ elim (lookup vpnif s.networks) [ none ↦ [] | some net ↦ route_lines net via ]
    ])
    else []

-- The static routes of the interface.
unfoldable pub static_route_lines : Setting → Text → Text
unfolding all_route_lines
static_route_lines s tag = elim (lookup tag s.static_routes) [
  | none ↦ []
  | some routes ↦ all_route_lines routes
]

-- The interface leads to the Internet or to the intranet.
abbrev pub is_outside : Text → Bool
is_outside tag = tag == extif || tag == intif

-- `nameserver` where the gateway is not taken for it.
unfoldable pub local_nameserver : Setting → Text → Result (Option Text)
local_nameserver s tag =
    if contains s.groups (codes "backdoor")
    then (if is_outside tag
        then ok none
        else (do a ← or_raise key_error (lookup pubif s.routerifs); ok (some (print_address a))))
    else ok (some (codes "127.0.0.1"))

-- `nameserver`; the gateway is given by its text, if the interface has one.
unfoldable pub nameserver : Setting → Text → Option Text → Result (Option Text)
unfolding local_nameserver
nameserver s tag none = local_nameserver s tag
nameserver s tag (some gateway) =
    if is_outside tag then local_nameserver s tag else ok (some gateway)

unfoldable pub nameserver_lines : Text → Option Text → Text
nameserver_lines domain_name none = []
nameserver_lines domain_name (some address) =
    line (codes "    dns-nameservers " ++ address) ++ line (codes "    dns-search " ++ domain_name)

-- The line for all but unprivileged containers.
unfoldable pub queue_line : Setting → Text → Text
queue_line s dev =
    if not (contains s.groups (codes "virt-lxc")) || contains s.groups (codes "nfs")
    then line (codes "    post-up /sbin/ifconfig " ++ dev ++ codes " txqueuelen 4")
    else []
