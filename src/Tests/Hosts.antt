-- ===== src/Tests/Hosts.antt =====
-- Runs of the walks over organization.xml and of the DHCP range, on concrete trees.
use umbrella_linux.Base.{
  ℕ, ◌≡◌, refl, true, false, List, [], ◌∷◌, Option, none, some, Text, arith, In, here, there, ok,
  nat_eq, text_eq, ℕ_discrete, text_discrete, ◌>>=◌, subst, ap, ◌∙◌, ◌⊎◌, inl, inr,
}
use umbrella_linux.Base.Dict.{Dict}
use umbrella_linux.Text.{codes, split}
use umbrella_linux.Net.{Network, network_eq, ip_address, ip_network, has_address, strict_network}
use umbrella_linux.Xml.{find_text, child_text}
use umbrella_linux.Networks.{read_dhcp}
use umbrella_linux.Organization.{unit_network, subunits}
use umbrella_linux.Organization.Chains.{Chain, stop, down}
use umbrella_linux.Tags.{
  accumulate_tags, matches, Tags, innermost, read_workstation, matched, Workstation,
}
use umbrella_linux.Tags.Walk.{accumulate_tags-Means, accumulate_tags_total, Means, Testable}
use umbrella_linux.Tags.Hosts.{read_workstation_consistent, is_matched, is_some}
use umbrella_linux.Tests.Tree.{Forest, empty, Xml, named, xml, xml-IsTree, leaf, branch, root_of}

abbrev dhcp : Xml
dhcp = root_of (
    branch (codes "pub_dhcp")
      (leaf (codes "start") (codes "10.0.0.5") (leaf (codes "end") (codes "10.0.0.9") empty)) empty)

dhcp_read : read_dhcp xml dhcp ≡ ok (some (167772165, 167772169))
unfolding read_dhcp find_text named text_eq text_discrete ℕ_discrete ip_address split nat_eq
dhcp_read = refl

-- A unit with a network and a users' group, below the root of organization.xml.
abbrev unit_parts : Forest
unit_parts =
    leaf (codes "network") (codes "10.0.0.0/8")
      (leaf (codes "gateway") (codes "10.0.0.1") (leaf (codes "users_group") (codes "staff") empty))

abbrev unit : Xml
unit = record { tag = codes "ou"; text = none; attributes = []; children = unit_parts }

abbrev org : Xml
org = root_of (branch (codes "ou") unit_parts empty)

abbrev ten : Network
ten = record { address = 167772160; prefixlen = 8 }

unit_has_network : unit_network xml unit ≡ ok (some ten)
unfolding unit_network child_text named text_eq text_discrete ℕ_discrete ip_network ip_address split
    nat_eq strict_network
unit_has_network = refl

org_has_none : unit_network xml org ≡ ok none
unfolding unit_network named text_eq text_discrete ℕ_discrete
org_has_none = refl

unit_has_no_units : subunits xml unit ≡ []
unfolding named text_eq text_discrete ℕ_discrete
unit_has_no_units = refl

org_has_unit : subunits xml org ≡ unit ∷ []
unfolding named text_eq text_discrete ℕ_discrete
org_has_unit = refl

not_empty : (s : Xml) → In s [] → ⊥
not_empty s i = elim i [ ]

unit_only : (l : List Xml) (u : Xml) → Chain xml unit l u → u ≡ unit
unit_only l u (stop e) = refl
unit_only l u (down {s = s} i c) = absurd (not_empty s (subst (In s) unit_has_no_units i))

reaches : (s u : Xml) (l : List Xml) → In s (unit ∷ []) → Chain xml s l u → u ≡ unit
reaches s u l (here e) c = unit_only l u (subst (λ z. Chain xml z l u) e c)
reaches s u l (there i) c = absurd (not_empty s i)

org_units : (l : List Xml) (u : Xml) → Chain xml org l u → (u ≡ org) ⊎ (u ≡ unit)
org_units l u (stop e) = inl refl
org_units l u (down {s = s} {l = k} i c) = inr (reaches s u k (subst (In s) org_has_unit i) c)

abbrev ip : Option ℕ
ip = some 167772165

org-Testable : Testable xml ip (codes "users_group") org
unfolding matches
org-Testable l u c = elim (org_units l u c) [
  | inl e ↦ (
    false,
    ap (λ z. unit_network xml z >>= matches ip) e ∙ ap (λ z. z >>= matches ip) org_has_none,
  )
  | inr e ↦ (
    has_address ten 167772165,
    ap (λ z. unit_network xml z >>= matches ip) e ∙ ap (λ z. z >>= matches ip) unit_has_network,
  )
]

accumulate_tags_total_example :
    (r : Tags) × (accumulate_tags xml ip (codes "users_group") 1000 org ≡ ok r)
accumulate_tags_total_example =
    accumulate_tags_total xml ip (codes "users_group") xml-IsTree 1000 org (omega arith)
      org-Testable

users_walk : accumulate_tags xml ip (codes "users_group") 3 org ≡ ok (codes "staff" ∷ [], true)
unfolding accumulate_tags unit_network child_text named text_eq text_discrete ℕ_discrete ip_network
    ip_address split nat_eq strict_network matches has_address
users_walk = refl

admin_walk : accumulate_tags xml ip (codes "admin_group") 3 org ≡ ok ([], true)
unfolding accumulate_tags unit_network child_text named text_eq text_discrete ℕ_discrete ip_network
    ip_address split nat_eq strict_network matches has_address
admin_walk = refl

accumulate_tags-Means_example : Means xml ip (codes "users_group") org (codes "staff" ∷ [], true)
accumulate_tags-Means_example =
    accumulate_tags-Means xml ip (codes "users_group") 3 org (codes "staff" ∷ [], true) users_walk

-- The workstation at 10.0.0.5.
abbrev workstation : Workstation
workstation = record {
  organization_host = true;
  network = matched (codes "10.0.0.0/8");
  gateway = matched (codes "10.0.0.1");
  users_group = some (codes "staff");
  admin_group = [];
}

workstation_read : read_workstation xml ip 3 org ≡ ok workstation
unfolding read_workstation accumulate_tags unit_network child_text named text_eq text_discrete
    ℕ_discrete ip_network ip_address split nat_eq strict_network matches has_address innermost
workstation_read = refl

read_workstation_consistent_example :
    (is_matched workstation.network ≡ workstation.organization_host)
    × (is_matched workstation.gateway ≡ workstation.organization_host)
    × (is_some workstation.users_group ≡ workstation.organization_host)
read_workstation_consistent_example =
    read_workstation_consistent xml ip 3 org workstation workstation_read
