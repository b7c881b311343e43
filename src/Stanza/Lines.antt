-- ===== src/Stanza/Lines.antt =====
-- Python/30_networking.py: `interface_stanza`, from the element of an interface.
use umbrella_linux.Base.{
  List, [], ◌∷◌, ◌++◌, Option, none, some, Text, text_eq, Result, ok, err, key_error, type_error,
  or_raise, ◌>>=◌,
}
use umbrella_linux.Base.Dict.{lookup}
use umbrella_linux.Text.{codes}
use umbrella_linux.Net.{Network}
use umbrella_linux.Xml.{Dom, find_str}
use umbrella_linux.Addresses.{stripped}
use umbrella_linux.Stanza.{
  Setting, line, bridged_device, heading, bridge_lines, vpn_route, static_route_lines, nameserver,
  nameserver_lines, queue_line,
}

-- `str(N.netmask())`: the netmask of a network of ipaddress is an address, which cannot be called.
abbrev pub netmask_text : Network → Result Text
netmask_text net = err type_error

-- `'    network '+N.network_address`: an address cannot be added to a text.
abbrev pub address_text : Network → Result Text
address_text net = err type_error

module _ (d : Dom) (s : Setting) (interface : d.Element) where
  -- `before + e.text + '\n'` for the children of a tag, in order.
  child_lines : Text → List d.Element → Result Text
  child_lines before [] = ok []
  child_lines before (e ∷ l) = do
    t ← or_raise type_error (d.text e)
    rest ← child_lines before l
    ok (line (before ++ t) ++ rest)

  gateway_line : Option Text → Text
  gateway_line none = []
  gateway_line (some gateway) = line (codes "    gateway " ++ gateway)

  -- The text of a child that is there, which the code adds to another text.
  unfoldable pub optional_str : Text → Result (Option Text)
  optional_str name = elim (d.find interface name) [
    | none ↦ ok none
    | some e ↦ (do t ← or_raise type_error (d.text e); ok (some t))
  ]

  -- The lines of an interface with the address `ip`.
  unfoldable pub static_lines : Text → Text → Result Text
  unfolding optional_str gateway_line nameserver nameserver_lines queue_line child_lines
  static_lines dev ip = do
    net ← or_raise key_error (lookup (d.tag interface) s.networks)
    mask ← netmask_text net
    address ← address_text net
    gateway ← optional_str (codes "gateway")
    server ← nameserver s (d.tag interface) gateway
    options ← child_lines (codes "    ") (d.findall interface (codes "option"))
    ups ← child_lines (codes "    up ") (d.findall interface (codes "up"))
    ok (
        line (codes "    address " ++ ip)
        ++ line (codes "    netmask " ++ mask)
        ++ line (codes "    network " ++ address)
        ++ gateway_line gateway
        ++ nameserver_lines s.domain_name server
        ++ queue_line s dev
        ++ options
        ++ ups)

  -- The `iface` line, and the lines that belong to it.
  unfoldable pub iface_lines : Text → Result Text
  unfolding stripped static_lines
  iface_lines dev = elim (d.find interface (codes "ip")) [
    | none ↦ ok (line (codes "iface " ++ dev ++ codes " inet manual"))
    | some ip ↦ elim (stripped (d.text ip)) [
      | none ↦ ok (line (codes "iface " ++ dev ++ codes " inet dhcp"))
      | some address ↦ (do
        rest ← static_lines dev address
        ok (line (codes "iface " ++ dev ++ codes " inet static") ++ rest))
    ]
  ]

  pub bridged_lines : Option Text → Text
  unfolding bridged_device
  bridged_lines none = []
  bridged_lines (some dev) = bridged_device (d.tag interface) dev

  pub vlan_line : Option Text → Text
  vlan_line none = []
  vlan_line (some dev) = line (codes "    vlan-raw-device " ++ dev)

  -- `interface_stanza(interface, networks, domain_name, metadata, routerifs, funcifs, static_routes)`
  unfoldable pub interface_stanza : Result Text
  unfolding optional_str bridged_lines heading iface_lines bridge_lines vlan_line vpn_route
      static_route_lines
  interface_stanza = do
    bridgeddev ← optional_str (codes "bridged")
    dev ← find_str d type_error interface (codes "dev")
    iface ← iface_lines dev
    vlandev ← optional_str (codes "vlandev")
    ok (
        bridged_lines bridgeddev
        ++ heading (d.tag interface)
        ++ line (codes "auto " ++ dev)
        ++ iface
        ++ bridge_lines bridgeddev
        ++ vlan_line vlandev
        ++ vpn_route s (d.tag interface)
        ++ static_route_lines s (d.tag interface))
