-- ===== src/Tests/Pings.antt =====
-- A run of the lists of pings, on a concrete topology.
use umbrella_linux.Base.{
  ◌≡◌, refl, List, [], ◌∷◌, none, some, Text, In, ok, nat_eq, text_eq, text_discrete, ℕ_discrete,
  ◌==◌, if◌then◌else◌,
}
use umbrella_linux.Base.Dict.{lookup, insert}
use umbrella_linux.Text.{codes, starts_with, decimal, strip}
use umbrella_linux.Text.Order.{sorted}
use umbrella_linux.Timestamp.{two_digits, parse_int}
use umbrella_linux.Nagios.{Topology, read_switch_pings}
use umbrella_linux.Nagios.Chosen.{read_switch_pings-IsChecked, IsChecked}
use umbrella_linux.Tests.Tree.{Xml, empty, xml}

abbrev switch : Xml
switch = record {
  tag = codes "switch";
  text = none;
  attributes = (codes "label", codes "core") ∷ (codes "ping_limit", codes "2") ∷ [];
  children = empty;
}

abbrev host : Text → Text → Xml
host ip priority = record {
  tag = codes "host";
  text = none;
  attributes = (codes "ip", ip) ∷ (codes "priority", priority) ∷ [];
  children = empty;
}

-- A switch with three hosts; the monitor is elsewhere.
abbrev lan : Topology xml
lan = record {
  find = λ path. none;
  findall = λ path.
      if path == codes "//switch"
      then switch ∷ []
      else host (codes "10.0.0.3") (codes "5")
        ∷ host (codes "10.0.0.4") (codes "40")
        ∷ host (codes "10.0.0.5") (codes "30")
        ∷ [];
  getpath = λ e. codes "/Properties/switch[1]";
  getparent = λ e. none;
}

abbrev monitor_path : Text
monitor_path = codes "/Properties/switch[2]/host"

abbrev pings : List Text
pings = codes "10.0.0.4" ∷ codes "10.0.0.5" ∷ []

pings_read : read_switch_pings xml lan monitor_path ≡ ok ((codes "core", pings) ∷ [])
unfolding read_switch_pings nat_eq text_eq text_discrete ℕ_discrete starts_with sorted lookup insert
    two_digits decimal parse_int strip
pings_read = refl

at_core : lookup (codes "core") ((codes "core", pings) ∷ []) ≡ some pings
unfolding lookup text_eq text_discrete ℕ_discrete
at_core = refl

read_switch_pings-IsChecked_example :
    (s : Xml) × In s (lan.findall (codes "//switch"))
    × IsChecked xml lan monitor_path (codes "core") pings s
read_switch_pings-IsChecked_example =
    read_switch_pings-IsChecked xml lan monitor_path (codes "core") pings
      ((codes "core", pings) ∷ []) (λ s i. (codes "/switch[1]", refl)) pings_read at_core
