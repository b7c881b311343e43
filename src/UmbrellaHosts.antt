-- ===== src/UmbrellaHosts.antt =====
-- Cfg/usr/local/bin/umbrella-hosts/umbrella-hosts: the script that shows the use of the address space
-- by organizational unit, finds a free address for a unit, and checks an address.
pub mod Free
pub mod Allotted
pub mod Known
pub mod Modes
pub mod Units
pub mod Tree
pub mod Script
use umbrella_linux.Base.{
  ℕ, zero, suc, ◌+◌, ◌*◌, Bool, true, false, not, List, [], ◌∷◌, ◌++◌, map, Option, none, some,
  Text, ◌==◌, nat_eq, text_eq, leb, if◌then◌else◌, contains, Result, ok, err, attribute_error,
  recursion_error, value_error, or_raise, fold_result, ◌>>=◌, length, replicate, keep,
}
use umbrella_linux.Text.{codes, strip, is_empty, split, decimal}
use umbrella_linux.Net.{
  Network, ip_address, has_address, num_addresses, print_address, print_network,
}
use umbrella_linux.Networks.{network_of, address_of}
use umbrella_linux.Xml.{Dom}

-- `ip_addresses.add(ip_address(text))`
unfoldable pub add_text : List ℕ → Option Text → Result (List ℕ)
add_text taken text = do a ← address_of text; ok (if contains taken a then taken else a ∷ taken)

-- `ip_addresses`, from the texts of umbrella.xml and the lines that LDAP answers.
unfoldable pub load_all_ips : List (Option Text) → List Text → Result (List ℕ)
unfolding add_text
load_all_ips in_umbrella ldap_lines = do
  taken ← fold_result add_text [] in_umbrella
  fold_result add_text taken (map (λ s. some s) ldap_lines)

-- `count_free_IPs(network)`
unfoldable pub count_free_ips : List ℕ → Network → ℕ
count_free_ips taken network = length (keep (has_address network) taken)

-- The loop of `get_free_IPs` over the addresses that are left.
unfoldable pub free_from : List ℕ → ℕ → ℕ → ℕ → List ℕ → List ℕ
free_from taken cnt zero a free_ips = free_ips
free_from taken cnt (suc left) a free_ips =
    let found = if contains taken a then free_ips else free_ips ++ (a ∷ []) in
    let rest = free_from taken cnt left (a + 1) found in
    if leb cnt (length found) then found else rest

-- `get_free_IPs(network, cnt)`
unfoldable pub get_free_ips : List ℕ → Network → ℕ → List ℕ
unfolding free_from
get_free_ips taken network cnt = free_from taken cnt (num_addresses network) network.address []

-- `s.ljust(width)`
unfoldable pub ljust : ℕ → Text → Text
ljust zero s = s
ljust (suc width) [] = b' ' ∷ ljust width []
ljust (suc width) (c ∷ s) = c ∷ ljust width s

-- The free addresses that are shown for a unit.
unfoldable pub print_free : List ℕ → Text
print_free [] = []
print_free (a ∷ l) = codes ", " ++ print_address a ++ print_free l

-- The path without the empty name in front of its first slash.
unfoldable pub path_names : Text → List Text
path_names path = elim (split b'/' path) [
  | [] ↦ []
  | ou ∷ names ↦ if ou == [] then names else ou ∷ names
]

-- `xpath`
unfoldable pub xpath_steps : List Text → Text
xpath_steps [] = []
xpath_steps (ou ∷ names) = codes "/ou[name=\"" ++ ou ++ codes "\"]" ++ xpath_steps names

unfoldable pub xpath_of : Text → Text
unfolding path_names xpath_steps
xpath_of path = b'/' ∷ xpath_steps (path_names path)

-- How the script ends: its exit status, and what it prints and reports.
pub record Ending : Type 0 where
  pub status : ℕ
  pub out : Text
  pub report : Text

-- `IP in network` and `IP in ip_addresses` of the last mode.
unfoldable pub check_address : List ℕ → Network → Text → ℕ → Ending
check_address taken network path a =
    if not (has_address network a)
    then record {
      status = 1;
      out = [];
      report =
          codes "The address "
          ++ print_address a
          ++ codes " does not belong to "
          ++ print_network network
          ++ codes ", corresponding to '"
          ++ path
          ++ codes "'.\n";
    }
    else if contains taken a
    then record {
      status = 2;
      out = [];
      report = codes "The address " ++ print_address a ++ codes " is taken.\n";
    }
    else record { status = 0; out = []; report = [] }

-- The first free address, or none.
unfoldable pub show_first : List ℕ → Ending
show_first [] = record {
  status = 10;
  out = [];
  report = codes "There are no free IP addresses in the specified organizational unit.\n";
}
show_first (a ∷ l) = record { status = 0; out = print_address a ++ codes "\n"; report = [] }

abbrev pub no_network : Ending
no_network = record {
  status = 9;
  out = [];
  report =
      codes
        "Can't determine the network for the specified organization path, check it against your organization.xml.\n";
}
