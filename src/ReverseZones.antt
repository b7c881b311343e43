-- ===== src/ReverseZones.antt =====
-- The files of the reverse zones: the names under which Bundler/bind-zones.xml lists them, and what the
-- template Cfg/etc/bind/zones/mainzone.rev/mainzone.rev.genshi prints under each name.
pub mod Files
pub mod Listed
pub mod Delegated
pub mod Pointed
pub mod Resolved
pub mod Servers
pub mod Printable
pub mod Complete
pub mod Scripts
pub mod Template
use umbrella_linux.Base.{
  ℕ, zero, suc, ◌+◌, ◌-◌, Bool, true, false, not, ◌&&◌, List, [], ◌∷◌, ◌++◌, map, Option, none,
  some, Text, ◌==◌, if◌then◌else◌, Result, ok, err, attribute_error, key_error, type_error,
  value_error, template_error, or_raise, ◌>>=◌, map_result, get_elem?, length, drop, replicate,
  nat_eq, text_eq, option_eq,
}
use mathlib.Core.List.{flatten}
use umbrella_linux.Base.Dict.{Dict, lookup, keys, values}
use umbrella_linux.Text.{codes, decimal, value, starts_with}
use umbrella_linux.Text.Order.{sorted}
use umbrella_linux.Text.Keyed.{sorted_by}
use umbrella_linux.Text.Suffix.{ends_with, drop_suffix, trailing_digits, after_last}
use umbrella_linux.Interfaces.{drop_last_two}
use umbrella_linux.Net.{Network, network_eq, print_network, has_address}
use umbrella_linux.Net.Each.{addresses, count_up}
use umbrella_linux.Networks.{is_subnet_of}
use umbrella_linux.FuncHosts.{Hosts, host_of}
use umbrella_linux.RevZones.{
  linking_nets, find_classful, network_zone_name, classless_short_name, host_rev_ip, is_served,
}

-- The variables of the scripts that the template includes, as far as it uses them.
pub record Setting : Type 0 where
  pub networks : Dict Text Network
  pub classfulnets : List Network
  pub hosts : Hosts
  pub funcifs : Dict (Option Text) ℕ
  pub domain_name : Text
  pub timestamp : Text

-- `linkingclassfulnets`
abbrev pub linking_of : Setting → List Network
linking_of s = linking_nets s.networks s.classfulnets

-- `filenametail`
abbrev pub file_tail : Text
file_tail = codes "_mainzone.rev"

-- `params`: the name of the file without its tail.
unfoldable pub zone_params : Text → Result Text
unfolding ends_with drop_suffix after_last
zone_params name =
    let zonefilename = after_last b'/' name in
    if ends_with zonefilename file_tail
    then ok (drop_suffix zonefilename file_tail)
    else err (
        template_error (
          codes "Reverse zone file name \""
          ++ zonefilename
          ++ codes "\" must end with \""
          ++ file_tail
          ++ codes "\"."))

-- `params.startswith('link_')`
abbrev pub is_link : Text → Bool
is_link params = starts_with params (codes "link_")

-- `int(...)` of the digits at the end.
number_at_end : Text → Result ℕ
number_at_end [] = err value_error
number_at_end (c ∷ s) = ok (value 0 (c ∷ s))

out_of_range : ℕ → List Network → Text
out_of_range num linking =
    codes "Classful zone number \""
    ++ decimal num
    ++ codes "\" out of range [0,"
    ++ (if length linking == 0 then codes "-1" else decimal (length linking - 1))
    ++ codes "]."

-- `NET` of a linking zone.
unfoldable pub link_net : List Network → Text → Result Network
unfolding number_at_end out_of_range
link_net linking params = do
  numclassful ← number_at_end (trailing_digits params)
  or_raise (template_error (out_of_range numclassful linking)) (get_elem? linking numclassful)

-- `NET` of the zone of a network of the system.
unfoldable pub served_net : Dict Text Network → Text → Result Network
served_net networks params =
    or_raise
      (template_error (
        codes "Requested to generate internal zone for an unknown subnet \""
        ++ params
        ++ codes "\"."))
      (lookup (params ++ codes "if") networks)

-- `NET`
unfoldable pub zone_net : Setting → Text → Result Network
unfolding link_net served_net
zone_net s params =
    if is_link params then link_net (linking_of s) params else served_net s.networks params

-- A line of the zone behind its SOA; names are relative to the origin, except that the template puts a
-- dot behind the names of servers.
pub data Record : Type 0 where
  ns : Text → Text → Record
  cname : Text → Text → Record
  ptr : Text → Text → Record

-- `s.ljust(c1width)`
abbrev pub left_column : Text → Text
left_column s = s ++ replicate (35 - length s) b' '

unfoldable pub record_line : Record → Text
record_line (ns owner server) = left_column owner ++ codes "    NS " ++ server ++ codes ".\n"
record_line (cname owner target) = left_column owner ++ codes "    CNAME " ++ target ++ codes "\n"
record_line (ptr owner host) = left_column owner ++ codes "    IN PTR " ++ host ++ codes ".\n"

drop_last : List ℕ → List ℕ
drop_last [] = []
drop_last (a ∷ []) = []
drop_last (a ∷ b ∷ l) = a ∷ drop_last (b ∷ l)

-- `list(N)[1:-1]`
unfoldable pub inner_addresses : Network → List ℕ
unfolding drop_last
inner_addresses n = drop_last (drop 1 (addresses n))

-- The lines of a linking zone for one network.
unfoldable pub delegation : Network → Network → Text → Network → Result (List Record)
delegation net netc router n =
    if is_subnet_of n net && not (n == net)
    then (do
      short ← classless_short_name n net
      ok (
          ns short router
          ∷ map (λ ip. cname (host_rev_ip ip netc) (host_rev_ip ip n ++ (b'.' ∷ short)))
              (inner_addresses n)))
    else ok []

unfoldable pub delegations : Setting → Network → Network → Text → Result (List Record)
unfolding delegation
delegations s net netc router = do
  parts ← map_result (delegation net netc router) (sorted_by print_network (values s.networks))
  ok (flatten parts)

-- `sorted(funchosts)`: a `None` cannot be compared with a text.
unfoldable pub sorted_functions : List (Option Text) → Result (List (Option Text))
sorted_functions (f ∷ []) = ok (f ∷ [])
sorted_functions fs = do names ← map_result (or_raise type_error) fs; ok (map some (sorted names))

host_pointer : Setting → Network → Option Text → ℕ → Result (List Record)
host_pointer s net function a = do
  host ← or_raise key_error (lookup function s.hosts.funchosts)
  ok (ptr (host_rev_ip a net) host ∷ [])

-- The line of one server, if its main address is in the network.
unfoldable pub pointer : Setting → Network → Option Text → Result (List Record)
unfolding host_pointer
pointer s net function = do
  a ← or_raise key_error (lookup function s.funcifs)
  if has_address net a then host_pointer s net function a else ok []

unfoldable pub pointers : Setting → Network → Result (List Record)
unfolding sorted_functions pointer
pointers s net = do
  functions ← sorted_functions (keys s.hosts.funchosts)
  parts ← map_result (pointer s net) functions
  ok (flatten parts)

pub record ReverseZone : Type 0 where
  pub origin : Text
  pub router : Text
  pub records : List Record

-- The zone that the template prints under a file name.
unfoldable pub reverse_zone : Setting → Text → Result ReverseZone
unfolding zone_params zone_net delegations pointers
reverse_zone s name = do
  params ← zone_params name
  net ← zone_net s params
  netc ← or_raise attribute_error (find_classful net s.classfulnets)
  zonename ← network_zone_name net netc
  router ← host_of (codes "router") s.hosts
  records ← (if is_link params then delegations s net netc router else pointers s net)
  ok (record { origin = zonename; router = router; records = ns [] router ∷ records })

-- The text of the file from its `$ORIGIN` on.
unfoldable pub zone_text : Setting → ReverseZone → Text
unfolding record_line
zone_text s zone =
    codes "$ORIGIN "
    ++ zone.origin
    ++ codes ".\n$TTL 500\n@  500  IN  SOA "
    ++ zone.router
    ++ codes ". itadmins."
    ++ s.domain_name
    ++ codes ". (\n                                          "
    ++ s.timestamp
    ++ codes " ; serial\n"
    ++ codes "                                          2400       ; refresh\n"
    ++ codes "                                          1800       ; retry\n"
    ++ codes "                                          720000     ; expire\n"
    ++ codes "                                          6400       ; minimum TTL\n"
    ++ codes "                                          )\n"
    ++ flatten (map record_line zone.records)

-- `'/etc/bind/zones/link_${str(i)}_mainzone.rev'`
abbrev pub link_file : ℕ → Text
link_file i = codes "/etc/bind/zones/link_" ++ decimal i ++ file_tail

-- `'/etc/bind/zones/${T[:-2]}_mainzone.rev'`
abbrev pub served_file : Text → Text
served_file t = codes "/etc/bind/zones/" ++ drop_last_two t ++ file_tail

-- The names of the files that the bundle lists for the reverse zones.
served_files : Dict Text Network → List Text
served_files [] = []
served_files ((t, _) ∷ nets) =
    let rest = served_files nets in if is_served t then served_file t ∷ rest else rest

unfoldable pub zone_files : Setting → List Text
unfolding served_files
zone_files s = map link_file (count_up (length (linking_of s)) 0) ++ served_files s.networks

-- The zones of all these files.
unfoldable pub reverse_zones : Setting → Result (List ReverseZone)
unfolding reverse_zone zone_files
reverse_zones s = map_result (reverse_zone s) (zone_files s)
