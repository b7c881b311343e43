-- ===== src/Ipclass.antt =====
-- Cfg/usr/local/bin/ipclass/ipclass.G50_ubuntu-jammy.genshi: the template, which prints the addresses of
-- the servers and the networks of the units into a script, and the script, which tells the class of
-- an address.
pub mod Classes
pub mod Told
use umbrella_linux.Base.{
  ℕ, Bool, true, false, ◌||◌, List, [], ◌∷◌, ◌++◌, Option, none, some, Text, text_eq, Result, ok,
  err, attribute_error, fold_result, map_result, map, if◌then◌else◌, ◌>>=◌, ◌>>◌,
}
use umbrella_linux.Base.Dict.{Dict, insert, lookup, keys}
use umbrella_linux.Text.{codes}
use umbrella_linux.Text.Keyed.{sorted_by}
use umbrella_linux.Xml.{Dom, find_text, find_str}
use umbrella_linux.Net.{Network, ip_address, ip_network, print_address, print_network, has_address}
use umbrella_linux.Networks.{read_networks}
use umbrella_linux.Organization.{read_netclasses}

-- The texts that the template puts between single quotes into the script, as they are.
pub record Script : Type 0 where
  pub pubnet : Text
  pub secnet : Text
  pub ipclasses : Dict Text Text
  pub netclasses : List (Text × Text)

-- What the template prints for a text that may be `None`.
abbrev pub shown : Option Text → Text
shown none = []
shown (some s) = s

-- The entry of `netclasses` for a network.
abbrev pub net_line : Network × Text → Text × Text
net_line (n, profile) = (print_network n, profile)

module _ (d : Dom) where
  -- The entry of `ipclasses` for an interface, if it has an ip.
  unfoldable pub note_interface : d.Element → Dict Text Text → d.Element → Result (Dict Text Text)
  unfolding find_text
  note_interface server classes interface = elim (d.find interface (codes "ip")) [
    | none ↦ ok classes
    | some ip ↦ (do
      function ← find_text d server (codes "function")
      ok (insert (shown (d.text ip)) (shown function) classes))
  ]

  unfoldable pub note_interfaces : List Text → Dict Text Text → d.Element → Result (Dict Text Text)
  unfolding note_interface
  note_interfaces types classes server =
      fold_result (note_interface server) classes (d.iter_any server types)

  -- `ipclasses`: of the entries with the same address the last one counts.
  unfoldable pub read_classes : d.Element → List Text → Result (Dict Text Text)
  unfolding note_interfaces
  read_classes root types = fold_result (note_interfaces types) [] (d.findall root (codes "server"))

  -- The template, for the root elements of umbrella.xml and of organization.xml.
  unfoldable pub render : ℕ → d.Element → d.Element → Result Script
  unfolding find_text
  render limit root organization = do
    networks ← read_networks d root
    nets ← read_netclasses d limit organization
    pubnet ← find_text d root (codes "pubnet")
    secnet ← find_text d root (codes "secnet")
    classes ← read_classes root (keys networks)
    ok (record {
      pubnet = shown pubnet;
      secnet = shown secnet;
      ipclasses = classes;
      netclasses = map net_line (sorted_by (λ (n, _). print_network n) nets);
    })

-- The exit status, and what is printed to the standard output.
pub record Outcome : Type 0 where
  pub status : ℕ
  pub out : Text

abbrev pub fails : Outcome
fails = record { status = 9; out = [] }

abbrev pub tells : Text → Outcome
tells class = record { status = 0; out = class ++ codes "\n" }

-- The class of an address. The last loop calls `netclasses.iteritems()`, which a dict of Python 3 does
-- not have.
unfoldable pub classify : Script → Network → Network → ℕ → Result Outcome
classify script pubnet secnet ip = elim (lookup (print_address ip) script.ipclasses) [
  | some class ↦ ok (tells class)
  | none ↦
      if has_address pubnet ip || has_address secnet ip
      then ok (tells (codes "workstation"))
      else err attribute_error
]

-- The script, for the arguments behind its name. `python` is what Python reads in the source with these
-- texts, or its error, since a text may end the quotes around it or have an escape in it.
unfoldable pub ipclass : (Script → Result Script) → Script → List Text → Result Outcome
unfolding classify
ipclass python printed args = do
  script ← python printed
  pubnet ← ip_network script.pubnet
  secnet ← ip_network script.secnet
  nets ← map_result (λ (s, profile). ip_network s) script.netclasses
  elim args [
    | [] ↦ ok fails
    | arg ∷ more ↦ elim more [
      | [] ↦ elim (ip_address arg) [ err _ ↦ ok fails | ok ip ↦ classify script pubnet secnet ip ]
      | _ ∷ _ ↦ ok fails
    ]
  ]
