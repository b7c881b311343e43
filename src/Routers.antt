-- ===== src/Routers.antt =====
-- Python/30_networking.py: the entries of the host and of the router in umbrella.xml, and the addresses
-- at which the router is seen from outside.
pub mod Entries
use umbrella_linux.Base.{
  Bool, true, false, not, List, [], ◌∷◌, ◌++◌, Option, none, some, Text, ◌==◌, text_eq, option_eq,
  if◌then◌else◌, Result, ok, err, template_error, fold_result, ◌>>=◌, ℕ, map_result, raise_if, ◌>>◌,
}
use umbrella_linux.Base.Dict.{Dict, insert}
use umbrella_linux.Text.{codes, strip, is_empty}
use umbrella_linux.Interfaces.{iftypes}
use umbrella_linux.Net.{ip_address}
use umbrella_linux.Xml.{Dom, strip_text, find_text, child_text}

-- The messages of the script.
abbrev pub several_entries : Text → Text
several_entries hostname = codes "Multiple entries in umbrella.xml for " ++ hostname ++ codes " ."

abbrev pub several_routers : Text
several_routers = codes "Multiple routers are declared in umbrella.xml ."

-- An address text, `None` if it is empty.
abbrev pub or_missing : Text → Option Text
or_missing [] = none
or_missing (c ∷ s) = some (c ∷ s)

module _ (d : Dom) where
  -- A place for one element: a second one raises.
  unfoldable pub only : Text → Bool → Option d.Element → d.Element → Result (Option d.Element)
  only message false old e = ok old
  only message true none e = ok (some e)
  only message true (some _) e = err (template_error message)

  -- `entry` and `router`
  pub record ServerEntries : Type 0 where
    pub entry : Option d.Element
    pub router : Option d.Element

  -- `server.find(name).text == value`
  unfoldable pub has_text : Text → Text → d.Element → Bool
  has_text name value e = child_text d e name == some value

  -- One round of the loop over the servers.
  unfoldable pub note_entry : Text → ServerEntries → d.Element → Result ServerEntries
  unfolding find_text only has_text
  note_entry hostname s server = do
    name ← find_text d server (codes "name")
    function ← find_text d server (codes "function")
    entry ← only (several_entries hostname) (has_text (codes "name") hostname server) s.entry server
    router ←
        only several_routers (has_text (codes "function") (codes "router") server) s.router server
    ok (record { entry = entry; router = router })

  unfoldable pub find_entries : Text → d.Element → Result ServerEntries
  unfolding note_entry
  find_entries hostname root =
      fold_result (note_entry hostname) (record { entry = none; router = none })
        (d.findall root (codes "server"))

  -- `extif_enabled` and `ext_address`, or those of the intranet.
  pub record Outside : Type 0 where
    pub enabled : Bool
    pub address : Option Text

  -- The address of `ip`, if it is there.
  unfoldable pub own_address : d.Element → Result Outside
  own_address t = elim (d.find t (codes "ip")) [
    | none ↦ ok (record { enabled = false; address = none })
    | some ip ↦ (do
      s ← strip_text (d.text ip)
      ok (record { enabled = true; address = or_missing s }))
  ]

  -- `nat_ip` overrides it.
  unfoldable pub nat_address : d.Element → Outside → Result Outside
  nat_address t o = elim (d.find t (codes "nat_ip")) [
    | none ↦ ok o
    | some ip ↦ (do s ← strip_text (d.text ip); ok (record o { address = or_missing s }))
  ]

  -- `interface` is "extif" or "intif".
  unfoldable pub seen_from_outside : d.Element → Text → Result Outside
  unfolding own_address nat_address
  seen_from_outside router interface = elim (d.find router interface) [
    | none ↦ ok (record { enabled = false; address = none })
    | some t ↦ (do o ← own_address t; nat_address t o)
  ]
