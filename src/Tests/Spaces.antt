-- ===== src/Tests/Spaces.antt =====
-- Runs of the search for free addresses and of the readers of networks.
use umbrella_linux.Base.{
  contains, false, length, In, inr, ap, ◌∙◌, subst, ◌++◌, ℕ, ◌≡◌, refl, ◌⊎◌, List, [], ◌∷◌, none,
  some, Text, there, here, ok, true, take, keep, nat_eq, text_eq, ℕ_discrete, text_discrete, arith,
}
use umbrella_linux.Base.Dict.{Dict}
use umbrella_linux.Text.{codes, split, decimal, join}
use umbrella_linux.Interfaces.{pubif, secif, dmz_if}
use umbrella_linux.Net.{
  Network, IsNetwork, ip_address, ip_network, strict_network, has_address, print_address,
}
use umbrella_linux.Networks.{read_networks}
use umbrella_linux.Networks.Read.{AreNetworks}
use umbrella_linux.Networks.Subnet.{Within}
use umbrella_linux.RevZones.{classful_nets, find_classful, is_served}
use umbrella_linux.RevZones.Configured.{read_networks-find_classful}
use umbrella_linux.RevZones.Wrapping.{IsClassful}
use umbrella_linux.Xml.{find_text, child_text}
use umbrella_linux.UmbrellaHosts.{xpath_of, get_free_ips, Ending, no_network, load_all_ips}
use umbrella_linux.Net.Each.{addresses, count_up}
use umbrella_linux.UmbrellaHosts.Free.{is_free, get_free_ips-take}
use umbrella_linux.UmbrellaHosts.Allotted.{allot, allot-In}
use umbrella_linux.UmbrellaHosts.Script.{
  run, Given, only_one, get_network_by_path, find_mode, check_mode,
}
use umbrella_linux.UmbrellaHosts.Modes.{HasNetwork, Tells, Finds, check_mode-Tells, find_mode-Finds}
use umbrella_linux.UmbrellaHosts.Units.{find_mode-accumulate_tags}
use umbrella_linux.Tags.{accumulate_tags, own_tag}
use umbrella_linux.UmbrellaHosts.Tree.{run_total}
use umbrella_linux.Organization.{subunits, unit_network}
use umbrella_linux.Organization.Chains.{Chain, stop, down}
use umbrella_linux.Tests.Tree.{xml-IsTree, empty, Xml, named, xml, leaf, root_of}

-- 10.0.0.0/29
abbrev small : Network
small = record { address = 167772160; prefixlen = 29 }

get_free_ips-take_example :
    get_free_ips (167772160 ∷ 167772162 ∷ []) small 2
    ≡ take 2 (keep (is_free (167772160 ∷ 167772162 ∷ [])) (addresses small))
get_free_ips-take_example = get_free_ips-take (167772160 ∷ 167772162 ∷ []) small 2 (omega arith)

two_found : get_free_ips (167772160 ∷ 167772162 ∷ []) small 2 ≡ 167772161 ∷ 167772163 ∷ []
unfolding get_free_ips nat_eq ℕ_discrete
two_found = refl

abbrev unit : Xml
unit =
    root_of (leaf (codes "name") (codes "lab") (leaf (codes "network") (codes "10.0.0.0/29") empty))

-- The first address stands in umbrella.xml, the second in LDAP.
abbrev given : Given xml
given = record {
  organization = unit;
  xpath = λ s. unit ∷ [];
  in_umbrella = some (codes "10.0.0.0") ∷ [];
  ldap_lines = codes "10.0.0.1" ∷ [];
  percent = λ count total. [];
}

abbrev free_ending : Ending
free_ending = record { status = 0; out = codes "10.0.0.2\n"; report = [] }

found : find_mode xml given (codes "/lab") ≡ ok free_ending
unfolding find_mode named text_eq text_discrete ℕ_discrete nat_eq ip_network ip_address split
    strict_network print_address join decimal
found = refl

find_mode-Finds_example :
    ((get_network_by_path xml given.xpath (codes "/lab") ≡ none) × (free_ending ≡ no_network))
    ⊎ ((n : Network) × HasNetwork xml given (codes "/lab") n
        × Finds xml given (codes "/lab") n free_ending)
find_mode-Finds_example = find_mode-Finds xml given (codes "/lab") free_ending found

find_mode-accumulate_tags_example :
    (a : ℕ) × (ou : Xml) × (only_one xml (given.xpath (xpath_of (codes "/lab"))) ≡ some ou)
    × (free_ending.out ≡ print_address a ++ codes "\n")
    × (accumulate_tags xml (some a) (codes "name") 1 ou
        ≡ ok (own_tag (child_text xml ou (codes "name")), true))
find_mode-accumulate_tags_example =
    find_mode-accumulate_tags xml given (codes "/lab") (codes "name") 0 free_ending found refl

abbrev taken_ending : Ending
taken_ending = record { status = 2; out = []; report = codes "The address 10.0.0.1 is taken.\n" }

taken : check_mode xml given (codes "/lab") (codes "10.0.0.1") ≡ ok taken_ending
unfolding check_mode named text_eq text_discrete ℕ_discrete nat_eq ip_network ip_address split
    strict_network print_address has_address join decimal
taken = refl

check_mode-Tells_example :
    ((get_network_by_path xml given.xpath (codes "/lab") ≡ none) × (taken_ending ≡ no_network))
    ⊎ ((n : Network) × (a : ℕ) × HasNetwork xml given (codes "/lab") n
        × (ip_address (codes "10.0.0.1") ≡ ok a)
        × Tells xml given (codes "/lab") n a 2)
check_mode-Tells_example =
    check_mode-Tells xml given (codes "/lab") (codes "10.0.0.1") taken_ending taken

nothing : (s : Xml) → In s [] → ⊥
nothing s i = elim i [ ]

no_units : subunits xml unit ≡ []
unfolding named text_eq text_discrete ℕ_discrete
no_units = refl

not_below : (l : List Xml) (u : Xml) → Chain xml unit l u → u ≡ unit
not_below l u (stop e) = refl
not_below l u (down {s = s} i c) = absurd (nothing s (subst (In s) no_units i))

unit_read : unit_network xml unit ≡ ok (some small)
unfolding unit_network named text_eq text_discrete ℕ_discrete nat_eq ip_network ip_address split
    strict_network
unit_read = refl

unit_titled :
    xml.find unit (codes "name")
    ≡ some (record {
      tag = codes "name";
      text = some (codes "lab");
      attributes = [];
      children = empty;
    })
unfolding named text_eq text_discrete ℕ_discrete
unit_titled = refl

known_read : load_all_ips given.in_umbrella given.ldap_lines ≡ ok (167772161 ∷ 167772160 ∷ [])
unfolding load_all_ips nat_eq ℕ_discrete ip_address split
known_read = refl

run_total_example :
    (out : Text) × (run xml 10 given [] ≡ ok (record { status = 0; out = out; report = [] }))
run_total_example =
    run_total xml xml-IsTree 10 given (167772161 ∷ 167772160 ∷ []) (omega arith)
      (λ l u c. (some small, ap (unit_network xml) (not_below l u c) ∙ unit_read))
      (λ l u c.
        inr (
          _,
          codes "lab",
          ap (λ z. xml.find z (codes "name")) (not_below l u c) ∙ unit_titled,
          refl,
        ))
      known_read

abbrev config : Xml
config = root_of (
    leaf (codes "pubnet") (codes "10.0.0.0/29") (
      leaf (codes "secnet") (codes "10.1.0.0/16")
        (leaf (codes "DMZnet") (codes "192.168.1.0/24") empty)))

abbrev nets : Dict Text Network
nets =
    (pubif, small)
    ∷ (secif, record { address = 167837696; prefixlen = 16 })
    ∷ (dmz_if, record { address = 3232235776; prefixlen = 24 })
    ∷ []

nets_read : read_networks xml config ≡ ok nets
unfolding read_networks find_text named text_eq text_discrete ℕ_discrete nat_eq ip_network
    ip_address split strict_network
nets_read = refl

dmz_served : is_served dmz_if ≡ true
unfolding is_served text_eq text_discrete ℕ_discrete
dmz_served = refl

abbrev dmz : Network
dmz = record { address = 3232235776; prefixlen = 24 }

read_networks-find_classful_example :
    AreNetworks nets
    × ((classful : List Network) × (zone : Network) × (classful_nets nets ≡ ok classful)
        × (find_classful dmz classful ≡ some zone)
        × IsNetwork zone
        × IsClassful zone
        × Within dmz zone)
read_networks-find_classful_example =
    read_networks-find_classful xml config nets dmz_if dmz nets_read (there (there (here refl)))
      dmz_served

-- 10.0.0.0/29 with six addresses in use: two are left.
abbrev six_taken : List ℕ
six_taken = 167772160 ∷ 167772161 ∷ 167772162 ∷ 167772164 ∷ 167772165 ∷ 167772167 ∷ []

two_left : keep (is_free six_taken) (addresses small) ≡ 167772163 ∷ 167772166 ∷ []
unfolding addresses count_up nat_eq ℕ_discrete
two_left = refl

third_inside : has_address small 167772166 ≡ true
unfolding has_address nat_eq ℕ_discrete
third_inside = refl

third_free : contains six_taken 167772166 ≡ false
unfolding nat_eq ℕ_discrete
third_free = refl

small-IsNetwork : IsNetwork small
small-IsNetwork = record { prefix_le = omega arith; address_lt = omega arith; aligned = refl }

allot-In_example :
    In 167772166 (allot 2 six_taken small)
    × (length (allot 2 six_taken small) ≡ length (keep (is_free six_taken) (addresses small)))
allot-In_example =
    allot-In small six_taken 2 167772166 small-IsNetwork (rw two_left (omega arith)) third_inside
      third_free
