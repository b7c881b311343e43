-- ===== src/Organization.antt =====
-- Python/35_organization.py: the profile of each network of organization.xml, and the walk over the
-- tree of organizational units that it shares with 30_networking.py.
pub mod Chains
pub mod Inherit
pub mod Complete
pub mod Valid
use umbrella_linux.Base.{
  ℕ, zero, suc, List, [], ◌∷◌, Option, none, some, Text, Result, ok, err, value_error,
  attribute_error, or_raise, recursion_error, fold_result, ◌>>=◌, if◌then◌else◌,
}
use umbrella_linux.Base.Dict.{Dict, insert}
use umbrella_linux.Text.{codes, strip, is_empty}
use umbrella_linux.Net.{Network, network_eq, ip_network}
use umbrella_linux.Xml.{Dom, child_text}
use umbrella_linux.Networks.{network_of}

module _ (d : Dom) where
  -- The units directly below a unit.
  abbrev pub subunits : d.Element → List d.Element
  subunits e = d.findall e (codes "ou")

  -- A `network_match` with no text stands for no network.
  match_text : Option Text → Option Text
  match_text none = none
  match_text (some s) = if is_empty (strip s) then none else some s

  parse_some : Option Text → Result (Option Network)
  parse_some none = ok none
  parse_some (some s) = do n ← ip_network s; ok (some n)

  -- `network` of a unit: its `network_match`, or else its `network`.
  unfoldable pub unit_network : d.Element → Result (Option Network)
  unfolding match_text parse_some
  unit_network e = elim (d.find e (codes "network_match")) [
    | some m ↦ parse_some (match_text (d.text m))
    | none ↦ elim (d.find e (codes "network")) [
      | none ↦ ok none
      | some x ↦ (do n ← network_of (d.text x); ok (some n))
    ]
  ]

  -- `val if val is not None else profile`
  unfoldable pub unit_profile : d.Element → Text → Text
  unit_profile e profile = elim (child_text d e (codes "bcfg2_profile")) [
    | none ↦ profile
    | some val ↦ val
  ]

  -- `netclasses[network] = ...`, if the unit has a network.
  unfoldable pub note_network : Option Network → Text → Dict Network Text → Dict Network Text
  note_network none profile nets = nets
  note_network (some n) profile nets = insert n profile nets

  -- `fill_netclasses(netclasses, element, profile)`; the fuel is the interpreter's recursion limit.
  unfoldable pub fill_netclasses :
      ℕ → Dict Network Text → d.Element → Text → Result (Dict Network Text)
  fill_netclasses zero nets e profile = err recursion_error
  fill_netclasses (suc limit) nets e profile = do
    network ← unit_network e
    fold_result (λ acc sub. fill_netclasses limit acc sub (unit_profile e profile))
        (note_network network (unit_profile e profile) nets) (subunits e)

  -- `netclasses`, from the root element of organization.xml.
  unfoldable pub read_netclasses : ℕ → d.Element → Result (Dict Network Text)
  unfolding fill_netclasses
  read_netclasses limit root = do
    ou ← or_raise attribute_error (d.find root (codes "ou"))
    fill_netclasses limit [] ou (codes "workstation")
