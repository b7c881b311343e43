-- ===== src/UmbrellaHosts/Tree.antt =====
-- Cfg/usr/local/bin/umbrella-hosts/umbrella-hosts: that the walk over organization.xml ends.
use umbrella_linux.Base.{
  ℕ, zero, suc, ◌+◌, ◌<◌, ◌≡◌, refl, ◌⊎◌, inl, inr, List, [], ◌∷◌, ◌++◌, Option, none, some,
  Option-cases, Text, ok, ◌>>=◌, >>=-eq-ok, arith, All-In, fold_total, sym, ◌∙◌,
}
use umbrella_linux.Text.{codes}
use umbrella_linux.Net.{Network}
use umbrella_linux.Networks.{network_of}
use umbrella_linux.Organization.{unit_network}
use umbrella_linux.Organization.Chains.{Chain, stop, down}
use umbrella_linux.Organization.Complete.{Readable}
use umbrella_linux.UmbrellaHosts.{load_all_ips}
use umbrella_linux.UmbrellaHosts.Script.{
  Given, get_curr_network, print_usage, print_unit, print_tree, tree_mode, run,
}
use umbrella_linux.UmbrellaHosts.Units.{current_network, unit_network-current}
use umbrella_linux.Xml.{Dom, IsTree}

module _ (d : Dom) where
  -- Every unit that has an element for its name has a name in it.
  abbrev pub IsTitled : d.Element → Type 0
  IsTitled e =
      (l : List d.Element) (u : d.Element)
      → Chain d e l u
      → (d.find u (codes "name") ≡ none)
        ⊎ ((name : d.Element) × (title : Text) × (d.find u (codes "name") ≡ some name)
            × (d.text name ≡ some title))

  module _ (percent : ℕ → ℕ → Text) (taken : List ℕ) where
    usage_total :
        (e : d.Element) (network : Option Network)
        → unit_network d e ≡ ok network
        → (s : Text) × (print_usage d percent taken (get_curr_network d e) ≡ ok s)
    unfolding print_usage current_network
    usage_total e network h = elim (Option-cases (get_curr_network d e)) [
      | inl missing ↦ ([], rw (missing, print_usage) refl)
      | inr (x, is) ↦
          let read = rw (is, current_network) at (sym (unit_network-current d e) ∙ h) in
          let (n, parsed, _) = >>=-eq-ok (network_of (d.text x)) (λ n. ok (some n)) read in
          rw (is, print_usage) (rw parsed (_, refl))
    ]

    unit_total :
        (level : ℕ) (e : d.Element) (network : Option Network)
        → unit_network d e ≡ ok network
        → (d.find e (codes "name") ≡ none)
          ⊎ ((name : d.Element) × (title : Text) × (d.find e (codes "name") ≡ some name)
              × (d.text name ≡ some title))
        → (line : Text) × (print_unit d percent taken level e ≡ ok line)
    unfolding print_unit
    unit_total level e network h (inl missing) = ([], rw (missing, print_unit) refl)
    unit_total level e network h (inr (name, title, is, has)) =
        let (usage, shown) = usage_total e network h in
        rw (is, print_unit) (rw has (rw shown (_, refl)))

    tree_total :
        (t : IsTree d) (limit level : ℕ) (e : d.Element)
        → t.height e < limit
        → Readable d e
        → IsTitled e
        → (out : Text) × (print_tree d percent taken limit level e ≡ ok out)
    unfolding print_tree
    tree_total t zero level e h r titled = absurd (omega arith)
    tree_total t (suc limit) level e h r titled =
        let (network, read) = r (e ∷ []) e (stop e) in
        let (line, printed) = unit_total level e network read (titled (e ∷ []) e (stop e)) in
        let (out, loop) =
          fold_total
            (λ out node.
              print_tree d percent taken limit (level + 1) node >>= λ below. ok (out ++ below))
            (d.findall e (codes "ou"))
            (λ acc s i.
              let (below, shown) =
                tree_total t limit (level + 1) s
                  (omega (
                    arith,
                    All-In (λ x. t.height x < t.height e) (d.findall e (codes "ou"))
                        (t.findall_lower e (codes "ou")) s i,
                  ))
                  (λ l u c. r (e ∷ l) u (down i c)) (λ l u c. titled (e ∷ l) u (down i c)) in
              (acc ++ below, rw shown refl))
            line in
        (out, rw printed loop)

  -- Without arguments, on a tree that is not deeper than the recursion limit, whose units have
  -- readable networks and names in the elements for them, and where the addresses in use can be
  -- read, the program ends with status 0 and reports no error.
  pub run_total :
      (t : IsTree d) (limit : ℕ) (g : Given d) (taken : List ℕ)
      → t.height g.organization < limit
      → Readable d g.organization
      → IsTitled g.organization
      → load_all_ips g.in_umbrella g.ldap_lines ≡ ok taken
      → (out : Text) × (run d limit g [] ≡ ok (record { status = 0; out = out; report = [] }))
  unfolding run tree_mode
  run_total t limit g taken h r titled loaded =
      let (out, shown) = tree_total g.percent taken t limit 0 g.organization h r titled in
      (out, rw (loaded, shown) refl)
