-- ===== src/UmbrellaHosts/Script.antt =====
-- Cfg/usr/local/bin/umbrella-hosts/umbrella-hosts: the walk over organization.xml, the network of a
-- path, and the script's main part.
use umbrella_linux.Base.{
  ℕ, zero, suc, ◌+◌, ◌*◌, List, [], ◌∷◌, ◌++◌, Option, none, some, Text, ◌==◌, nat_eq, text_eq,
  if◌then◌else◌, Result, ok, err, attribute_error, recursion_error, or_raise, fold_result, ◌>>=◌,
  length, replicate,
}
use umbrella_linux.Text.{codes, strip, is_empty, decimal}
use umbrella_linux.Net.{ip_address, num_addresses}
use umbrella_linux.Networks.{network_of}
use umbrella_linux.Xml.{Dom}
use umbrella_linux.UmbrellaHosts.{
  load_all_ips, count_free_ips, get_free_ips, print_free, ljust, xpath_of, Ending, check_address,
  show_first, no_network,
}

-- What the script is given: the root of organization.xml with the XPath queries on it,
-- the texts of the addresses in umbrella.xml, what LDAP answers, and `'%.2f%%' % (count*100/total)`.
pub record Given (d : Dom) : Type 0 where
  pub organization : d.Element
  pub xpath : Text → List d.Element
  pub in_umbrella : List (Option Text)
  pub ldap_lines : List Text
  pub percent : ℕ → ℕ → Text

-- The text that `--help` prints.
abbrev pub help_text : Text
help_text =
    codes
      "\nAn utility to review/assign/check free IP addresses in this Umbrella Linux\ninstallation.\n\nUsage:\n    umbrella-hosts     # prints the IP address allocations for all the \n                       # Organizatonal Units (OUs)\n    umbrella-hosts '/OU1/OU2/OU3'  # prints a single free IP address in an\n                                   # Organizational Unit, specified by path\n                                   # in the OU tree\n    umbrella-hosts '/OU1/OU2' 111.222.333.444  # checks that the specified IP\n                                               # address is free and indeed \n                                               # belongs to the specified OU\n                                               # Exits with status 0 if it is.\n\n"

module _ (d : Dom) where
  -- `get_curr_network(xdata)`
  unfoldable pub get_curr_network : d.Element → Option d.Element
  get_curr_network e = elim (d.find e (codes "network_match")) [
    | none ↦ d.find e (codes "network")
    | some m ↦ elim (d.text m) [
      | none ↦ none
      | some s ↦ if is_empty (strip s) then none else some m
    ]
  ]

  -- What is printed of a unit's network.
  unfoldable pub print_usage : (ℕ → ℕ → Text) → List ℕ → Option d.Element → Result Text
  unfolding get_free_ips count_free_ips print_free
  print_usage percent taken none = ok []
  print_usage percent taken (some e) = do
    network ← network_of (d.text e)
    let count = count_free_ips taken network
    let free_ips = get_free_ips taken network 2
    ok (
        codes " ["
        ++ decimal count
        ++ codes "/"
        ++ decimal (num_addresses network)
        ++ codes ","
        ++ percent count (num_addresses network)
        ++ print_free free_ips
        ++ (if length free_ips == 0
            then codes "NETWORK IS FULL ! No free addresses remain.\n"
            else []))

  -- The line of a unit, if it has a name.
  unfoldable pub print_unit : (ℕ → ℕ → Text) → List ℕ → ℕ → d.Element → Result Text
  unfolding print_usage get_curr_network ljust
  print_unit percent taken level e = elim (d.find e (codes "name")) [
    | none ↦ ok []
    | some name ↦ (do
      s ← or_raise attribute_error (d.text name)
      usage ← print_usage percent taken (get_curr_network e)
      ok (replicate (level * 2) b' ' ++ codes " " ++ ljust 20 s ++ usage ++ codes "\n"))
  ]

  -- `print_tree(xdata, level)`; the fuel is the interpreter's recursion limit.
  unfoldable pub print_tree : (ℕ → ℕ → Text) → List ℕ → ℕ → ℕ → d.Element → Result Text
  unfolding print_unit
  print_tree percent taken zero level e = err recursion_error
  print_tree percent taken (suc limit) level e = do
    line ← print_unit percent taken level e
    fold_result
        (λ out node. print_tree percent taken limit (level + 1) node >>= λ below. ok (out ++ below))
        line (d.findall e (codes "ou"))

  -- `ou_elem` if the query has one answer.
  unfoldable pub only_one : List d.Element → Option d.Element
  only_one (e ∷ []) = some e
  only_one [] = none
  only_one (_ ∷ _ ∷ _) = none

  -- `get_network_by_path(xdata, path)`
  unfoldable pub get_network_by_path : (Text → List d.Element) → Text → Option d.Element
  unfolding get_curr_network only_one xpath_of
  get_network_by_path xpath path = elim (only_one (xpath (xpath_of path))) [
    | none ↦ none
    | some ou_elem ↦ get_curr_network ou_elem
  ]

  -- The modes with a path: one finds a free address, the other checks an address.
  unfoldable pub find_mode : Given d → Text → Result Ending
  unfolding get_network_by_path load_all_ips get_free_ips show_first
  find_mode g path = elim (get_network_by_path g.xpath path) [
    | none ↦ ok no_network
    | some network_elem ↦ (do
      network ← network_of (d.text network_elem)
      taken ← load_all_ips g.in_umbrella g.ldap_lines
      ok (show_first (get_free_ips taken network 1)))
  ]

  unfoldable pub check_mode : Given d → Text → Text → Result Ending
  unfolding get_network_by_path load_all_ips check_address
  check_mode g path ip = elim (get_network_by_path g.xpath path) [
    | none ↦ ok no_network
    | some network_elem ↦ (do
      network ← network_of (d.text network_elem)
      taken ← load_all_ips g.in_umbrella g.ldap_lines
      a ← ip_address ip
      ok (check_address taken network path a))
  ]

  unfoldable pub tree_mode : ℕ → Given d → Result Ending
  unfolding print_tree load_all_ips
  tree_mode limit g = do
    taken ← load_all_ips g.in_umbrella g.ldap_lines
    out ← print_tree g.percent taken limit 0 g.organization
    ok (record { status = 0; out = out; report = [] })

  abbrev pub help : Ending
  help = record { status = 0; out = help_text; report = [] }

  -- The script's main part.
  unfoldable pub run : ℕ → Given d → List Text → Result Ending
  unfolding tree_mode find_mode check_mode
  run limit g [] = tree_mode limit g
  run limit g (path ∷ []) = if path == codes "--help" then ok help else find_mode g path
  run limit g (path ∷ ip ∷ []) = check_mode g path ip
  run limit g (_ ∷ _ ∷ _ ∷ _) = ok help
