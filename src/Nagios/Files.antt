-- ===== src/Nagios/Files.antt =====
-- Documentation/hacks/nagios_map/update_nagios: the parents of switches and hosts, and the two files
-- that the program writes.
use umbrella_linux.Base.{
  Bool, not, List, [], ◌∷◌, ◌++◌, Option, none, some, Text, ◌==◌, text_eq, option_eq, if◌then◌else◌,
  Result, ok, attribute_error, key_error, name_error, type_error, or_raise, raise_if, fold_result,
  ◌>>=◌, ◌>>◌,
}
use umbrella_linux.Base.Dict.{Dict, insert, lookup}
use umbrella_linux.FuncHosts.{Hosts, read_servers}
use umbrella_linux.Nagios.{Topology, get_label, read_switch_pings}
use umbrella_linux.Text.{codes, lower}
use umbrella_linux.Xml.{Dom, find_text}

-- `" ".join(pings)`
unfoldable pub join_spaces : List Text → Text
join_spaces [] = []
join_spaces (p ∷ []) = p
join_spaces (p ∷ q ∷ pings) = p ++ codes " " ++ join_spaces (q ∷ pings)

-- The definitions of a switch.
unfoldable pub switch_text : Text → Dict Text Text → Text → List Text → Text
unfolding join_spaces
switch_text domain_name parents switch pings =
    codes "define command {\n        command_name    check_switch_"
    ++ switch
    ++ codes "\n        command_line    /usr/lib/nagios/plugins/check_host "
    ++ join_spaces pings
    ++ codes "\n        }\n\ndefine host {\n        host_name   "
    ++ switch
    ++ codes "."
    ++ domain_name
    ++ codes
        "\n        use         generic-host\n        address     127.0.0.1\n        check_command  check_switch_"
    ++ switch
    ++ codes "\n"
    ++ (elim (lookup switch parents) [
      | none ↦ []
      | some parent ↦
          codes "        parents     " ++ parent ++ codes "." ++ domain_name ++ codes "\n"
    ])
    ++ codes "        }\n\n"

-- switches.cfg
unfoldable pub switches_cfg : Text → Dict Text Text → Dict Text (List Text) → Text
switches_cfg domain_name parents [] = []
switches_cfg domain_name parents ((switch, pings) ∷ switch_pings) =
    switch_text domain_name parents switch pings ++ switches_cfg domain_name parents switch_pings

-- The parent of a host that is monitored; `isfile` is that of `os.path`.
unfoldable pub client_text : (Text → Bool) → Text → Text → Text → Text
client_text isfile domain_name host parent =
    if isfile
      (codes "/var/lib/bcfg2/NagiosGen/" ++ host ++ codes "." ++ domain_name ++ codes "-host.cfg")
    then codes "    <Client name=\""
      ++ host
      ++ codes "."
      ++ domain_name
      ++ codes "\">\n        <Option name=\"parents\">"
      ++ parent
      ++ codes "."
      ++ domain_name
      ++ codes "</Option>\n    </Client>\n\n"
    else []

unfoldable pub client_texts : (Text → Bool) → Text → Dict Text Text → Text
unfolding client_text
client_texts isfile domain_name [] = []
client_texts isfile domain_name ((host, parent) ∷ parents) =
    client_text isfile domain_name host parent ++ client_texts isfile domain_name parents

-- config.xml
unfoldable pub config_xml : (Text → Bool) → Text → Dict Text Text → Text
unfolding client_texts
config_xml isfile domain_name parents =
    codes "<NagiosGen>\n" ++ client_texts isfile domain_name parents ++ codes "</NagiosGen>\n"

-- The two files.
pub record Files : Type 0 where
  pub switches : Text
  pub config : Text

module _ (d : Dom) (lan : Topology d) where
  -- `monitor`, and the path of it; `getpath(None)` is a TypeError.
  unfoldable pub find_monitor : Hosts → Result Text
  find_monitor hosts = do
    short ← or_raise key_error (lookup (some (codes "monitor")) hosts.funchostsshort)
    elim (lan.find (codes "//host[@name=\"" ++ short ++ codes "\"]")) [
      | some monitor ↦ ok (lan.getpath monitor)
      | none ↦ (do
        full ← or_raise key_error (lookup (some (codes "monitor")) hosts.funchosts)
        monitor ← or_raise type_error (lan.find (codes "//host[@name=\"" ++ full ++ codes "\"]"))
        ok (lan.getpath monitor))
    ]

  -- The parent of an element, where it is not the root.
  unfoldable pub inner_parent : d.Element → Result (Option d.Element)
  inner_parent e = do
    parent ← or_raise attribute_error (lan.getparent e)
    ok (if d.tag parent == codes "Properties" then none else some parent)

  unfoldable pub note_labels : Option Text → Option Text → Dict Text Text → Dict Text Text
  note_labels none parent parents = parents
  note_labels (some label) none parents = parents
  note_labels (some label) (some parent) parents = insert label parent parents

  -- One round of the loop over the elements.
  unfoldable pub note_parent : Dict Text Text → d.Element → Result (Dict Text Text)
  unfolding inner_parent note_labels
  note_parent parents e = do
    parent ← inner_parent e
    element_label ← get_label d (some e)
    parent_label ← get_label d parent
    ok (note_labels element_label parent_label parents)

  -- `parents`
  unfoldable pub read_parents : Result (Dict Text Text)
  unfolding note_parent
  read_parents = fold_result note_parent [] (lan.findall (codes "//"))

  -- `domain_name`
  unfoldable pub lower_domain : d.Element → Result Text
  lower_domain umbrella = do
    domain ← or_raise attribute_error (d.find umbrella (codes "domain"))
    text ← find_text d domain (codes "name")
    name ← or_raise attribute_error text
    ok (lower name)

  -- The whole program; `eprint`, which it calls for a topology that does not validate, has no
  -- definition.
  unfoldable pub update_nagios : (Text → Bool) → Bool → d.Element → Result Files
  unfolding lower_domain find_monitor read_parents switches_cfg config_xml
  update_nagios isfile validates umbrella = do
    raise_if (not validates) name_error
    domain_name ← lower_domain umbrella
    hosts ← read_servers d domain_name umbrella
    monitor_path ← find_monitor hosts
    switch_pings ← read_switch_pings d lan monitor_path
    parents ← read_parents
    ok (record {
      switches = switches_cfg domain_name parents switch_pings;
      config = config_xml isfile domain_name parents;
    })
