-- ===== src/RevZones/Configured.antt =====
-- The reverse zones of the networks that are read from umbrella.xml.
use umbrella_linux.Base.{◌≡◌, true, List, Text, ok, some, In}
use umbrella_linux.Base.Dict.{Dict}
use umbrella_linux.Net.{Network, IsNetwork}
use umbrella_linux.Networks.{read_networks}
use umbrella_linux.Networks.Read.{AreNetworks, read_networks-AreNetworks}
use umbrella_linux.Networks.Subnet.{Within}
use umbrella_linux.RevZones.{find_classful, is_served, classful_nets}
use umbrella_linux.RevZones.Wrapping.{IsClassful}
use umbrella_linux.RevZones.Zones.{find_classful-classful_nets}
use umbrella_linux.Xml.{Dom}

-- Whenever the networks of umbrella.xml can be read, they are well formed and no interface type has
-- two; the classful networks are computed without an exception, and `findClassful` finds among them,
-- for every network that reverse zones are made for, a classful network with all its addresses.
pub read_networks-find_classful :
    (d : Dom) (root : d.Element) (nets : Dict Text Network) (t : Text) (n : Network)
    → read_networks d root ≡ ok nets
    → In (t, n) nets
    → is_served t ≡ true
    → AreNetworks nets
      × ((classful : List Network) × (zone : Network) × (classful_nets nets ≡ ok classful)
          × (find_classful n classful ≡ some zone)
          × IsNetwork zone
          × IsClassful zone
          × Within n zone)
read_networks-find_classful d root nets t n h i served =
    let valid = read_networks-AreNetworks d root nets h in
    (valid, find_classful-classful_nets nets t n (valid.0) i served)
