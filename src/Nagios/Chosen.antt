-- ===== src/Nagios/Chosen.antt =====
-- Documentation/hacks/nagios_map/update_nagios: which hosts are pinged for a switch.
use umbrella_linux.Base.{
  ◌≡◌, refl, ◌⊎◌, inl, inr, true, not, List, [], ◌++◌, Option, none, some, Text, text_eq, contains,
  In→contains, ok, key_error, or_raise, fold_source, after_known, ok-injective, length, drop,
  keep-In, In-keep, contains→In, Bool-cases, ◌↔◌, ℤ, In, sym, ap, ◌∙◌, subst, arith, All, In-All,
}
use umbrella_linux.Base.Dict.{insert_source, Dict, lookup, lookup-nil}
use umbrella_linux.Text.{codes, starts_with}
use umbrella_linux.Xml.{Dom}
use umbrella_linux.Nagios.{
  Topology, ping_list, collect_all_in_path, below_properties, branch_of, hosts_of_branch,
  ping_hosts, limit_of, note_switch, read_switch_pings,
}
use umbrella_linux.Nagios.Lists.{
  IsWithin, IsFilled, ping_list-IsWithin, ping_list-IsFilled, ping_list-In,
}
use umbrella_linux.Nagios.Paths.{
  Begins, starts_with_iff, below_properties-Begins, IsSecond, IsSecond→branch_of,
  branch_of→IsSecond,
}
use umbrella_linux.Nagios.Collected.{IsCollected, collect_all_in_path-IsCollected}

or_raise-eq-ok : (o : Option Text) (a : Text) → or_raise key_error o ≡ ok a → o ≡ some a
or_raise-eq-ok none a h = cc
or_raise-eq-ok (some b) a h = ground arith

not_contained : (s : List Text) (x : Text) → (In x s → ⊥) → not (contains s x) ≡ true
not_contained s x absent = elim (Bool-cases (contains s x)) [
  | inl found ↦ absurd (absent (contains→In s x found))
  | inr missing ↦ rw missing refl
]

not_excluded : (s : List Text) (x : Text) → not (contains s x) ≡ true → In x s → ⊥
not_excluded s x h i = cc (h, In→contains s x i)

module _ (d : Dom) (lan : Topology d) where
  -- A host of the monitor's own branch below a switch, where that branch is a switch. The paths stand
  -- for the part of the monitor's behind the switch's, and of the switch's below the root element.
  abbrev pub IsInBranch : Text → Text → Text → Type 0
  IsInBranch below rest x =
      (branch : Text) × IsSecond branch below
      × ((r : Text) × Begins branch (codes "switch") r)
      × IsCollected d lan (rest ++ codes "/" ++ branch ++ codes "//") x

  -- Which hosts are pinged for a switch: if the monitor's path begins with the switch's, all hosts but
  -- those of the monitor's branch, and else those below the switch.
  abbrev pub IsPinged : Text → Text → Text → Text → Type 0
  IsPinged monitor_path switch_path rest x =
      ((below : Text) × Begins monitor_path switch_path below
        × IsCollected d lan (codes "//") x
        × (¬ IsInBranch below rest x))
      ⊎ (((r : Text) → ¬ Begins monitor_path switch_path r)
          × IsCollected d lan (rest ++ codes "//") x)

  -- The paths of the switches begin with the root element.
  abbrev pub AreRooted : Type 0
  AreRooted =
      (switch : d.Element)
      → In switch (lan.findall (codes "//switch"))
      → (rest : Text) × Begins (lan.getpath switch) (codes "/Properties") rest

  module _ (monitor_path switch_path rest : Text)
      (rooted : Begins switch_path (codes "/Properties") rest) (x : Text) where
    hosts_of_branch_iff :
        (branch : Text) (s : List Text)
        → hosts_of_branch d lan switch_path branch ≡ ok s
        → In x s ↔ (
            ((r : Text) × Begins branch (codes "switch") r)
            × IsCollected d lan (rest ++ codes "/" ++ branch ++ codes "//") x)
    unfolding hosts_of_branch
    hosts_of_branch_iff branch s h = elim (Bool-cases (starts_with branch (codes "switch"))) [
      | inr other ↦
          let none_of : [] ≡ s = ok-injective [] s (rw (other, hosts_of_branch) at h) in
          (
            λ i. elim (subst (In x) (sym none_of) i) [ ],
            λ (begins, _). absurd (cc (other, (starts_with_iff branch (codes "switch")).1 begins)),
          )
      | inl is ↦
          let path : below_properties switch_path ≡ rest =
            below_properties-Begins switch_path rest rooted in
          let collected =
            collect_all_in_path-IsCollected d lan (rest ++ codes "/" ++ branch ++ codes "//") x s (
              subst (λ z. collect_all_in_path d lan (z ++ codes "/" ++ branch ++ codes "//") ≡ ok s)
                path (rw (is, hosts_of_branch) at h)) in
          (
            λ i. ((starts_with_iff branch (codes "switch")).0 is, collected.0 i),
            λ (_, c). collected.1 c,
          )
    ]

    above_iff :
        (below : Text) (s : List Text)
        → Begins monitor_path switch_path below
        → starts_with monitor_path switch_path ≡ true
        → ping_hosts d lan monitor_path switch_path ≡ ok s
        → In x s ↔ (IsCollected d lan (codes "//") x × (¬ IsInBranch below rest x))
    unfolding ping_hosts
    above_iff below s begins is h =
        after_known (branch_of monitor_path switch_path) _ s
          (λ branch at_branch.
            after_known (hosts_of_branch d lan switch_path branch) _ s (λ excluded made.
              after_known (collect_all_in_path d lan (codes "//")) _ s (λ all collected last.
                let same = ok-injective _ s last in
                let kept = keep-In (λ y. not (contains excluded y)) x all in
                let listed = collect_all_in_path-IsCollected d lan (codes "//") x all collected in
                let left_out = hosts_of_branch_iff branch excluded made in
                (
                  λ i.
                      (let (j, k) = kept (subst (In x) (sym same) i) in
                        (
                          listed.0 j,
                          λ (other, second, switch, c). not_excluded excluded x k (
                              subst
                                (λ z.
                                  ((r : Text) × Begins z (codes "switch") r)
                                    × IsCollected d lan (rest ++ codes "/" ++ z ++ codes "//") x
                                  → In x excluded)
                                (ok-injective branch other (
                                  sym at_branch
                                  ∙ IsSecond→branch_of monitor_path switch_path below other begins
                                      second))
                                left_out.1 (switch, c)),
                        )),
                  λ (c, outside).
                      (let absent : In x excluded → ⊥ = λ j.
                          (let (switch, k) = left_out.0 j in
                            outside (
                              branch,
                              branch_of→IsSecond monitor_path switch_path below branch begins
                                  at_branch,
                              switch,
                              k,
                            )) in
                        subst (In x) same (
                          In-keep (λ y. not (contains excluded y)) x all (listed.1 c)
                            (not_contained excluded x absent))),
                ))))
          (rw (is, ping_hosts) at h)

    pub ping_hosts_iff :
        (s : List Text)
        → ping_hosts d lan monitor_path switch_path ≡ ok s
        → In x s ↔ IsPinged monitor_path switch_path rest x
    unfolding ping_hosts
    ping_hosts_iff s h = elim (Bool-cases (starts_with monitor_path switch_path)) [
      | inl is ↦
          let (below, begins) = (starts_with_iff monitor_path switch_path).0 is in
          (
            λ i.
                (let (c, outside) = (above_iff below s begins is h).0 i in
                  inl (below, begins, c, outside)),
            λ which. elim which [
              | inl (under, at_under, c, outside) ↦ (above_iff under s at_under is h).1 (c, outside)
              | inr (other, _) ↦ absurd (other below begins)
            ],
          )
      | inr other ↦
          let path : below_properties switch_path ≡ rest =
            below_properties-Begins switch_path rest rooted in
          let collected = collect_all_in_path-IsCollected d lan (rest ++ codes "//") x s (
            subst (λ z. collect_all_in_path d lan (z ++ codes "//") ≡ ok s) path
              (rw (other, ping_hosts) at h)) in
          (
            λ i. inr (
              (λ r begins. cc (other, (starts_with_iff monitor_path switch_path).1 (r, begins))),
              collected.0 i,
            ),
            λ which. elim which [
              | inl (under, at_under, _, _) ↦
                  absurd
                    (cc (other, (starts_with_iff monitor_path switch_path).1 (under, at_under)))
              | inr (_, c) ↦ collected.1 c
            ],
          )
    ]

  -- The hosts that are pinged for a switch with a label.
  abbrev pub IsChecked : Text → Text → List Text → d.Element → Type 0
  IsChecked monitor_path label pings switch =
      (d.attribute switch (codes "label") ≡ some label)
      × ((limit : Option ℤ) × (rest : Text) × (limit_of d switch ≡ ok limit)
          × Begins (lan.getpath switch) (codes "/Properties") rest
          × IsWithin limit (length pings)
          × IsFilled limit (IsPinged monitor_path (lan.getpath switch) rest) pings
          × All
              (λ p. (x : Text) × (p ≡ drop 3 x) × IsPinged monitor_path (lan.getpath switch) rest x)
              pings)

  listed-IsChecked :
      (monitor_path label rest : Text) (limit : Option ℤ) (hosts : List Text) (switch : d.Element)
      → d.attribute switch (codes "label") ≡ some label
      → limit_of d switch ≡ ok limit
      → Begins (lan.getpath switch) (codes "/Properties") rest
      → ping_hosts d lan monitor_path (lan.getpath switch) ≡ ok hosts
      → IsChecked monitor_path label (ping_list limit hosts) switch
  listed-IsChecked monitor_path label rest limit hosts switch named limited rooted found =
      let pinged : (x : Text) → In x hosts ↔ IsPinged monitor_path (lan.getpath switch) rest x =
        λ x. ping_hosts_iff monitor_path (lan.getpath switch) rest rooted x hosts found in
      (
        named,
        (
          limit,
          rest,
          limited,
          rooted,
          ping_list-IsWithin limit hosts,
          elim (ping_list-IsFilled limit hosts) [
            | inl all ↦ inl (λ x p. all x ((pinged x).1 p))
            | inr limits ↦ inr limits
          ],
          In-All _ (ping_list limit hosts) (λ p i.
              let (x, j, shown) = ping_list-In limit hosts p i in (x, shown, (pinged x).0 j)),
        ),
      )

  -- The same for a switch whose path begins with the root element.
  abbrev Checks : Text → Text → List Text → d.Element → Type 0
  Checks monitor_path label pings switch =
      ((rest : Text) × Begins (lan.getpath switch) (codes "/Properties") rest)
      → IsChecked monitor_path label pings switch

  note_switch-IsChecked :
      (monitor_path label : Text) (pings : List Text) (s s' : Dict Text (List Text))
      (switch : d.Element)
      → note_switch d lan monitor_path s switch ≡ ok s'
      → lookup label s' ≡ some pings
      → (lookup label s ≡ some pings) ⊎ Checks monitor_path label pings switch
  unfolding note_switch
  note_switch-IsChecked monitor_path label pings s s' switch h at_label =
      after_known (limit_of d switch) _ s'
        (λ limit limited h1.
          after_known (ping_hosts d lan monitor_path (lan.getpath switch)) _ s'
            (λ hosts found h2.
              after_known (or_raise key_error (d.attribute switch (codes "label"))) _ s'
                (λ own named last.
                  elim (insert_source label own (ping_list limit hosts) pings s (
                    subst (λ z. lookup label z ≡ some pings) (sym (ok-injective _ s' last))
                      at_label)) [
                        | inl old ↦ inl old
                        | inr (e, f) ↦
                            let labelled =
                              or_raise-eq-ok (d.attribute switch (codes "label")) label
                                (named ∙ ap ok (sym e)) in
                            inr (λ (rest, rooted).
                              subst (λ l. IsChecked monitor_path label l switch) f
                                (listed-IsChecked monitor_path label rest limit hosts switch
                                  labelled limited rooted found))
                      ])
                h2)
            h1)
        h

  -- Where the path of every switch begins with the root element, the hosts that are listed for a label
  -- are those of a switch with that label: each stands, without its priority, for a host or switch
  -- that is pinged for it; there are no more of them than a ping_limit that the switch has and that is
  -- not negative; and without a ping_limit every host that is pinged for the switch is listed, and
  -- with one that is not negative every one is or there are as many as the limit. If the monitor's path
  -- begins with the switch's, all hosts of the LAN are pinged but those below the second part of what
  -- follows in the monitor's path, where that part begins with switch, and else those below the switch.
  pub read_switch_pings-IsChecked :
      (monitor_path label : Text) (pings : List Text) (r : Dict Text (List Text))
      → AreRooted
      → read_switch_pings d lan monitor_path ≡ ok r
      → lookup label r ≡ some pings
      → (switch : d.Element) × In switch (lan.findall (codes "//switch"))
        × IsChecked monitor_path label pings switch
  unfolding read_switch_pings
  read_switch_pings-IsChecked monitor_path label pings r rooted h at_label =
      elim (fold_source (note_switch d lan monitor_path) (λ z. lookup label z ≡ some pings)
        (Checks monitor_path label pings) (note_switch-IsChecked monitor_path label pings)
        (lan.findall (codes "//switch")) [] r h at_label) [
          | inl old ↦ absurd (cc (lookup-nil label))
          | inr (switch, i, checks) ↦ (switch, i, checks (rooted switch i))
        ]
