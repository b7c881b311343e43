-- ===== src/UmbrellaHosts/Units.antt =====
-- Cfg/usr/local/bin/umbrella-hosts/umbrella-hosts and the scripts of Python/: that they mean the same
-- network of a unit.
use umbrella_linux.Base.{
  ℕ, suc, ◌≡◌, refl, inl, inr, true, ◌++◌, Option, none, some, Text, Option-cases, Result, ok,
  ◌>>=◌, ap, ◌∙◌, arith, Bool-cases,
}
use umbrella_linux.Text.{codes, strip, is_empty}
use umbrella_linux.Net.{Network, has_address, print_address}
use umbrella_linux.Networks.{network_of}
use umbrella_linux.Organization.{unit_network}
use umbrella_linux.Tags.{accumulate_tags, matches, own_tag}
use umbrella_linux.Xml.{Dom, child_text}
use umbrella_linux.UmbrellaHosts.{Ending, no_network, xpath_of}
use umbrella_linux.UmbrellaHosts.Modes.{find_mode-Finds}
use umbrella_linux.UmbrellaHosts.Script.{
  Given, get_curr_network, only_one, get_network_by_path, find_mode,
}

nine_not_zero : (r : Ending) → r ≡ no_network → r.status ≡ 0 → ⊥
nine_not_zero r e h = let nine = ap (λ z. z.status) e in omega arith

module _ (d : Dom) where
  -- The network of the element that the program takes for that of a unit.
  unfoldable pub current_network : d.Element → Result (Option Network)
  current_network e = elim (get_curr_network d e) [
    | none ↦ ok none
    | some x ↦ (do n ← network_of (d.text x); ok (some n))
  ]

  pub unit_network-current : (e : d.Element) → unit_network d e ≡ current_network e
  unfolding unit_network current_network get_curr_network
  unit_network-current e = elim (Option-cases (d.find e (codes "network_match"))) [
    | inl missing ↦ rw (missing, unit_network, current_network) refl
    | inr (m, there') ↦
        rw (there', unit_network, current_network)
          (elim (Option-cases (d.text m)) [
            | inl no_text ↦ rw no_text refl
            | inr (s, has) ↦ elim (Bool-cases (is_empty (strip s))) [
              | inl blank ↦ rw has (rw blank refl)
              | inr given ↦ rw has (rw given (rw has refl))
            ]
          ])
  ]

  current_of :
      (g : Given d) (path : Text) (x : d.Element)
      → get_network_by_path d g.xpath path ≡ some x
      → (ou : d.Element) × (only_one d (g.xpath (xpath_of path)) ≡ some ou)
        × (get_curr_network d ou ≡ some x)
  unfolding get_network_by_path
  current_of g path x h = elim (Option-cases (only_one d (g.xpath (xpath_of path)))) [
    | inl missing ↦ absurd (cc (rw (missing, get_network_by_path) at h))
    | inr (ou, found) ↦ (ou, found, rw (found, get_network_by_path) at h)
  ]

  accumulate_tags_here :
      (name : Text) (limit a : ℕ) (ou x : d.Element) (n : Network)
      → get_curr_network d ou ≡ some x
      → network_of (d.text x) ≡ ok n
      → has_address n a ≡ true
      → accumulate_tags d (some a) name (suc limit) ou ≡ ok (own_tag (child_text d ou name), true)
  unfolding accumulate_tags current_network matches
  accumulate_tags_here name limit a ou x n current is inside =
      let read : unit_network d ou ≡ ok (some n) =
        unit_network-current ou ∙ rw (current, current_network) (rw is refl) in
      rw read (rw inside refl)

  -- When the search for a free address ends with status 0, the path leads to one unit, the program
  -- prints an address, and for a host with this address the walk over organization.xml that starts
  -- at that unit stops there and gives the unit's own tag.
  pub find_mode-accumulate_tags :
      (g : Given d) (path name : Text) (limit : ℕ) (r : Ending)
      → find_mode d g path ≡ ok r
      → r.status ≡ 0
      → (a : ℕ) × (ou : d.Element) × (only_one d (g.xpath (xpath_of path)) ≡ some ou)
        × (r.out ≡ print_address a ++ codes "\n")
        × (accumulate_tags d (some a) name (suc limit) ou
            ≡ ok (own_tag (child_text d ou name), true))
  find_mode-accumulate_tags g path name limit r h done = elim (find_mode-Finds d g path r h) [
    | inl (_, nine) ↦ absurd (nine_not_zero r nine done)
    | inr (n, (x, at_path, is), inl (ten, _)) ↦ absurd (omega arith)
    | inr (n, (x, at_path, is), inr (a, inside, _, shown, _, _)) ↦
        let (ou, found, current) = current_of g path x at_path in
        (
          a,
          ou,
          found,
          ap (λ z. z.out) shown,
          accumulate_tags_here name limit a ou x n current is inside,
        )
  ]
