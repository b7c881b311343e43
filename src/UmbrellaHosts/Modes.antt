-- ===== src/UmbrellaHosts/Modes.antt =====
-- Cfg/usr/local/bin/umbrella-hosts/umbrella-hosts: what the modes with a path answer.
use umbrella_linux.Base.{
  ℕ, ◌≤◌, ◌≡◌, refl, ◌↔◌, ◌⊎◌, inl, inr, true, false, List, [], ◌∷◌, ◌++◌, none, some, Text,
  contains, contains→In, In→contains, Option-cases, ok, take, arith, Bool-cases, nat_eq, sym, ap,
  ◌∙◌, subst, In, after_known, ok-injective,
}
use umbrella_linux.Text.{codes}
use umbrella_linux.Net.{num_addresses, Network, ip_address, has_address, print_address}
use umbrella_linux.Net.Print.{ip_address-print_address}
use umbrella_linux.Net.Range.{has_address-lt}
use umbrella_linux.Networks.{network_of}
use umbrella_linux.Networks.Read.{network_of-IsNetwork}
use umbrella_linux.Xml.{Dom}
use umbrella_linux.UmbrellaHosts.Known.{IsKnown, load_all_ips_iff}
use umbrella_linux.UmbrellaHosts.{
  load_all_ips, get_free_ips, Ending, check_address, show_first, no_network,
}
use umbrella_linux.Net.Each.{addresses, In-addresses}
use umbrella_linux.UmbrellaHosts.Free.{first_free, get_free_ips-take}
use umbrella_linux.UmbrellaHosts.Script.{Given, get_network_by_path, find_mode, check_mode}

not_contained : (l : List ℕ) (b : ℕ) → (In b l → ⊥) → contains l b ≡ false
not_contained l b other = elim (Bool-cases (contains l b)) [
  | inl c ↦ absurd (other (contains→In l b c))
  | inr c ↦ c
]

module _ (d : Dom) (g : Given d) (path : Text) where
  -- The network of a path.
  abbrev pub HasNetwork : Network → Type 0
  HasNetwork n =
      (e : d.Element) × (get_network_by_path d g.xpath path ≡ some e)
      × (network_of (d.text e) ≡ ok n)

  abbrev pub Known : ℕ → Type 0
  Known = IsKnown g.in_umbrella g.ldap_lines

  -- What the exit statuses of a check say.
  abbrev pub Tells : Network → ℕ → ℕ → Type 0
  Tells n a status =
      ((status ≡ 0) ↔ ((has_address n a ≡ true) × (Known a → ⊥)))
      × ((status ≡ 1) ↔ (has_address n a ≡ false))
      × ((status ≡ 2) ↔ ((has_address n a ≡ true) × Known a))

  check_address-Tells :
      (taken : List ℕ) (n : Network) (a : ℕ)
      → load_all_ips g.in_umbrella g.ldap_lines ≡ ok taken
      → Tells n a (check_address taken n path a).status
  unfolding check_address
  check_address-Tells taken n a loaded =
      let known = load_all_ips_iff g.in_umbrella g.ldap_lines taken a loaded in
      elim (Bool-cases (has_address n a)) [
        | inr outside ↦ rw outside (
          (λ (e : ◌≡◌ {A = ℕ} 1 0). absurd (omega arith), λ (b, _). absurd (cc)),
          (λ _. refl, λ _. refl),
          (λ (e : ◌≡◌ {A = ℕ} 1 2). absurd (omega arith), λ (b, _). absurd (cc)),
        )
        | inl inside ↦ elim (Bool-cases (contains taken a)) [
          | inl used ↦
              rw (inside, used)
                (
                  (
                    λ (e : ◌≡◌ {A = ℕ} 2 0). absurd (omega arith),
                    λ (_, unknown). absurd (unknown (known.0 (contains→In taken a used))),
                  ),
                  (
                    λ (e : ◌≡◌ {A = ℕ} 2 1). absurd (omega arith),
                    λ (b : true ≡ false). absurd (cc),
                  ),
                  (λ _. (refl, known.0 (contains→In taken a used)), λ _. refl),
                )
          | inr free ↦
              rw (inside, free)
                (
                  (λ _. (refl, λ k. cc (In→contains taken a (known.1 k))), λ _. refl),
                  (
                    λ (e : ◌≡◌ {A = ℕ} 0 1). absurd (omega arith),
                    λ (b : true ≡ false). absurd (cc),
                  ),
                  (
                    λ (e : ◌≡◌ {A = ℕ} 0 2). absurd (omega arith),
                    λ (_, k). cc (In→contains taken a (known.1 k)),
                  ),
                )
        ]
      ]

  -- When the check of an address ends, the path has no network and the status is 9, or the status
  -- is 0 exactly if the address is in the network of the path and neither umbrella.xml nor LDAP has
  -- it, 1 exactly if it is not in the network, and 2 exactly if it is in the network and taken.
  pub check_mode-Tells :
      (ip : Text) (r : Ending)
      → check_mode d g path ip ≡ ok r
      → ((get_network_by_path d g.xpath path ≡ none) × (r ≡ no_network))
        ⊎ ((n : Network) × (a : ℕ) × HasNetwork n × (ip_address ip ≡ ok a) × Tells n a r.status)
  unfolding check_mode
  check_mode-Tells ip r h = elim (Option-cases (get_network_by_path d g.xpath path)) [
    | inl missing ↦ inl (missing, sym (ok-injective no_network r (rw (missing, check_mode) at h)))
    | inr (e, at_path) ↦ inr (
        after_known (network_of (d.text e)) _ r
          (λ n is. after_known (load_all_ips g.in_umbrella g.ldap_lines) _ r (λ taken loaded.
            after_known (ip_address ip) _ r (λ a given last. (
              n,
              a,
              (e, at_path, is),
              given,
              subst (λ z. Tells n a z.status) (ok-injective _ r last)
                  (check_address-Tells taken n a loaded),
            ))))
          (rw (at_path, check_mode) at h))
  ]

  -- An address that is found, and what the check says of it.
  abbrev pub Finds : Network → Ending → Type 0
  Finds n r =
      ((r.status ≡ 10) × ((b : ℕ) → has_address n b ≡ true → Known b))
      ⊎ ((a : ℕ) × (has_address n a ≡ true)
          × (Known a → ⊥)
          × (r ≡ record { status = 0; out = print_address a ++ codes "\n"; report = [] })
          × (check_mode d g path (print_address a)
              ≡ ok (record { status = 0; out = []; report = [] }))
          × ((b : ℕ) → has_address n b ≡ true → (Known b → ⊥) → a ≤ b))

  -- The check of a free address of the network.
  passes :
      (n : Network) (taken : List ℕ) (a : ℕ)
      → HasNetwork n
      → load_all_ips g.in_umbrella g.ldap_lines ≡ ok taken
      → has_address n a ≡ true
      → contains taken a ≡ false
      → check_mode d g path (print_address a) ≡ ok (record { status = 0; out = []; report = [] })
  unfolding check_mode check_address
  passes n taken a (e, at_path, is) loaded inside free =
      let read =
        ip_address-print_address a
          (has_address-lt n a (network_of-IsNetwork (d.text e) n is) inside) in
      rw (at_path, check_mode) (rw (is, loaded) (rw read (rw (inside, free) refl)))

  show_first-Finds :
      (n : Network) (taken : List ℕ)
      → HasNetwork n
      → load_all_ips g.in_umbrella g.ldap_lines ≡ ok taken
      → Finds n (show_first (get_free_ips taken n 1))
  unfolding show_first addresses
  show_first-Finds n taken (e, at_path, is) loaded =
      let valid = network_of-IsNetwork (d.text e) n is in
      let known = load_all_ips_iff g.in_umbrella g.ldap_lines taken in
      elim (first_free taken (num_addresses n) n.address) [
        | inl (none_left, all) ↦
            let result : get_free_ips taken n 1 ≡ [] =
              get_free_ips-take taken n 1 (omega arith) ∙ ap (λ l. take 1 l) none_left in
            rw result (
              inl (
                refl,
                λ b inside.
                    (known b loaded).0
                      (contains→In taken b (all b ((In-addresses n b valid).1 inside))),
              ))
        | inr (x, r, first, i, free, least) ↦
            let result : get_free_ips taken n 1 ≡ x ∷ [] =
              get_free_ips-take taken n 1 (omega arith) ∙ ap (λ l. take 1 l) first in
            rw result (
              inr (
                x,
                (In-addresses n x valid).0 i,
                λ k. cc (free, In→contains taken x ((known x loaded).1 k)),
                refl,
                passes n taken x (e, at_path, is) loaded ((In-addresses n x valid).0 i) free,
                λ b inside unknown.
                    least b ((In-addresses n b valid).1 inside)
                      (not_contained taken b (λ j. unknown ((known b loaded).0 j))),
              ))
      ]

  -- When the search for a free address ends, the path has no network and the status is 9, or the
  -- status is 10 and every address of the network of the path is taken, or the script prints the
  -- lowest address of that network that neither umbrella.xml nor LDAP has, ends with status 0, and
  -- the check of the printed address for the same path ends with status 0 as well.
  pub find_mode-Finds :
      (r : Ending)
      → find_mode d g path ≡ ok r
      → ((get_network_by_path d g.xpath path ≡ none) × (r ≡ no_network))
        ⊎ ((n : Network) × HasNetwork n × Finds n r)
  unfolding find_mode
  find_mode-Finds r h = elim (Option-cases (get_network_by_path d g.xpath path)) [
    | inl missing ↦ inl (missing, sym (ok-injective no_network r (rw (missing, find_mode) at h)))
    | inr (e, at_path) ↦ inr (
        after_known (network_of (d.text e)) _ r
          (λ n is. after_known (load_all_ips g.in_umbrella g.ldap_lines) _ r (λ taken loaded last. (
            n,
            (e, at_path, is),
            subst (Finds n) (ok-injective _ r last)
                (show_first-Finds n taken (e, at_path, is) loaded),
          )))
          (rw (at_path, find_mode) at h))
  ]
