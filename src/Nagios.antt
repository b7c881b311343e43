-- ===== src/Nagios.antt =====
-- Documentation/hacks/nagios_map/update_nagios: which hosts are pinged to check each switch of the
-- LAN, and below which element each of them stands.
pub mod Lists
pub mod Collected
pub mod Paths
pub mod Chosen
pub mod Files
use umbrella_linux.Base.{
  ℕ, suc, ◌+◌, ◌-◌, Bool, true, false, not, ◌||◌, List, [], ◌∷◌, ◌++◌, map, reverse, Option, none,
  some, Text, ◌==◌, text_eq, contains, if◌then◌else◌, Result, ok, err, key_error, value_error,
  index_error, type_error, or_raise, fold_result, ◌>>=◌, length, take, drop, keep, ℤ, pos, negsuc,
}
use umbrella_linux.Base.Dict.{Dict, insert, lookup}
use umbrella_linux.Text.{codes, split, starts_with}
use umbrella_linux.Text.Order.{sorted}
use umbrella_linux.Timestamp.{parse_int, two_digits}
use umbrella_linux.Xml.{Dom}

-- `set.add` and `a - b` on sets.
abbrev pub add_to : Text → List Text → List Text
add_to x s = if contains s x then s else x ∷ s

abbrev pub without : List Text → List Text → List Text
without s t = keep (λ x. not (contains t x)) s

-- `l[:n]`; a negative number leaves out that many at the end.
unfoldable pub slice_to : ℤ → List Text → List Text
slice_to (pos n) l = take n l
slice_to (negsuc n) l = take (length l - suc n) l

-- `int(s)`
unfoldable pub to_int : Text → Result ℤ
to_int s = or_raise value_error (parse_int s)

-- `sorted(pinghosts, reverse=True)`, at most `ping_limit` of them, without the priority and its
-- underscore.
unfoldable pub ping_list : Option ℤ → List Text → List Text
unfolding slice_to
ping_list none pinghosts = map (λ x. drop 3 x) (reverse (sorted pinghosts))
ping_list (some ping_limit) pinghosts =
    map (λ x. drop 3 x) (slice_to ping_limit (reverse (sorted pinghosts)))

-- `switch_path[len("/Properties"):]`
abbrev pub below_properties : Text → Text
below_properties path = drop (length (codes "/Properties")) path

-- `monitor_path[len(switch_path):].split('/')[1]`
unfoldable pub branch_of : Text → Text → Result Text
branch_of monitor_path switch_path = elim (split b'/' (drop (length switch_path) monitor_path)) [
  | [] ↦ err index_error
  | _ ∷ [] ↦ err index_error
  | _ ∷ branch ∷ _ ↦ ok branch
]

-- The topology of the LAN: `find` and `findall` by a path, and the path and the parent of an element.
pub record Topology (d : Dom) : Type 0 where
  pub find : Text → Option d.Element
  pub findall : Text → List d.Element
  pub getpath : d.Element → Text
  pub getparent : d.Element → Option d.Element

module _ (d : Dom) where
  -- `priority`
  unfoldable pub priority_of : d.Element → Result ℤ
  unfolding to_int
  priority_of subs = elim (d.attribute subs (codes "priority")) [
    | some p ↦ to_int p
    | none ↦ ok (pos (if starts_with (d.tag subs) (codes "switch") then 70 else 20))
  ]

  -- `identifier`
  unfoldable pub identifier_of : d.Element → Option Text
  identifier_of subs = elim (d.attribute subs (codes "name")) [
    | some name ↦ some name
    | none ↦ d.attribute subs (codes "ip")
  ]

  -- `"%02d_%s" % (priority,identifier)` is added to the set.
  unfoldable pub note_host : List Text → d.Element → Result (List Text)
  unfolding priority_of identifier_of
  note_host found subs =
      if starts_with (d.tag subs) (codes "switch") || starts_with (d.tag subs) (codes "host")
      then (do
        priority ← priority_of subs
        ok (elim (identifier_of subs) [
          | none ↦ found
          | some identifier ↦ add_to (two_digits priority ++ codes "_" ++ identifier) found
        ]))
      else ok found

  -- `collectAllInPath(branch_path)`
  unfoldable pub collect_all_in_path : Topology d → Text → Result (List Text)
  unfolding note_host
  collect_all_in_path lan branch_path = fold_result note_host [] (lan.findall branch_path)

  -- The hosts of the monitor's own branch below the switch.
  unfoldable pub hosts_of_branch : Topology d → Text → Text → Result (List Text)
  unfolding collect_all_in_path
  hosts_of_branch lan switch_path branch =
      if starts_with branch (codes "switch")
      then collect_all_in_path lan
          (below_properties switch_path ++ codes "/" ++ branch ++ codes "//")
      else ok []

  -- `pinghosts`
  unfoldable pub ping_hosts : Topology d → Text → Text → Result (List Text)
  unfolding collect_all_in_path hosts_of_branch branch_of
  ping_hosts lan monitor_path switch_path =
      if starts_with monitor_path switch_path
      then (do
        branch ← branch_of monitor_path switch_path
        excludehosts ← hosts_of_branch lan switch_path branch
        allhosts ← collect_all_in_path lan (codes "//")
        ok (without allhosts excludehosts))
      else collect_all_in_path lan (below_properties switch_path ++ codes "//")

  -- `ping_limit`
  unfoldable pub limit_of : d.Element → Result (Option ℤ)
  unfolding to_int
  limit_of switch = elim (d.attribute switch (codes "ping_limit")) [
    | none ↦ ok none
    | some s ↦ (do n ← to_int s; ok (some n))
  ]

  -- One round of the loop over the switches.
  unfoldable pub note_switch :
      Topology d → Text → Dict Text (List Text) → d.Element → Result (Dict Text (List Text))
  unfolding limit_of ping_hosts ping_list
  note_switch lan monitor_path switch_pings switch = do
    ping_limit ← limit_of switch
    pinghosts ← ping_hosts lan monitor_path (lan.getpath switch)
    label ← or_raise key_error (d.attribute switch (codes "label"))
    ok (insert label (ping_list ping_limit pinghosts) switch_pings)

  -- `switch_pings`
  unfoldable pub read_switch_pings : Topology d → Text → Result (Dict Text (List Text))
  unfolding note_switch
  read_switch_pings lan monitor_path =
      fold_result (note_switch lan monitor_path) [] (lan.findall (codes "//switch"))

  -- `getLabel(element)`
  unfoldable pub get_label : Option d.Element → Result (Option Text)
  get_label none = ok none
  get_label (some e) =
      if d.tag e == codes "switch"
      then (do label ← or_raise key_error (d.attribute e (codes "label")); ok (some label))
      else if d.tag e == codes "host"
      then ok (d.attribute e (codes "name"))
      else ok none
