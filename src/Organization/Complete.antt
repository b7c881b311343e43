-- ===== src/Organization/Complete.antt =====
-- Every network of the tree gets an entry, and the walk ends without an error.
use umbrella_linux.Base.{◌≡◌, List, Option, none, some, Text, ok, arith}
use umbrella_linux.Base.Dict.{Dict}
use umbrella_linux.Net.{Network, network_eq}
use umbrella_linux.Xml.{Dom}
use umbrella_linux.Organization.{unit_network}
use umbrella_linux.Organization.Chains.{Chain}
use umbrella_linux.Organization.Inherit.{Declared}

module _ (d : Dom) where
  -- A unit of the network `n` below `e`.
  pub record Holds (n : Network) (e : d.Element) : Type 0 where
    pub chain : List d.Element
    pub unit : d.Element
    pub leads : Chain d e chain unit
    pub network : unit_network d unit ≡ ok (some n)

  some-injective' : (a b : Option Network) → ok a ≡ ok b → a ≡ b
  some-injective' a b h = ground arith

  -- The networks of all units below `e` can be read.
  abbrev pub Readable : d.Element → Type 0
  Readable e =
      (l : List d.Element) (u : d.Element)
      → Chain d e l u
      → (network : Option Network) × (unit_network d u ≡ ok network)

  -- What the dict says of a network: an entry is the profile that the nearest unit names, at or
  -- above a unit of the network, and without an entry there is no unit of the network.
  abbrev pub Entry : d.Element → Text → Network → Option Text → Type 0
  Entry root profile n none = ¬ Holds n root
  Entry root profile n (some q) = Declared d root profile n q
