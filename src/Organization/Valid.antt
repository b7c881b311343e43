-- ===== src/Organization/Valid.antt =====
-- The networks that the walk over organization.xml notes are well formed.
use umbrella_linux.Base.{
  ℕ, zero, suc, ◌≡◌, [], ◌∷◌, Option, none, some, Text, ok, ◌==◌, if◌then◌else◌, fold_keeps,
  after_known, ok-injective, subst, All, ◌>>=◌, or_raise, attribute_error, true, false,
}
use umbrella_linux.Base.Dict.{Dict, insert}
use umbrella_linux.Text.{codes}
use umbrella_linux.Xml.{Dom}
use umbrella_linux.Net.{Network, network_eq, IsNetwork, ip_network}
use umbrella_linux.Net.Parsed.{ip_network-IsNetwork}
use umbrella_linux.Networks.{network_of}
use umbrella_linux.Networks.Read.{network_of-IsNetwork}
use umbrella_linux.Organization.{
  match_text, parse_some, unit_network, unit_profile, note_network, fill_netclasses,
  read_netclasses, subunits,
}

abbrev pub AreValid : Dict Network Text → Type 0
AreValid nets = All (λ (n, _). IsNetwork n) nets

abbrev IsValid : Option Network → Type 0
IsValid none = Unit
IsValid (some n) = IsNetwork n

insert-AreValid :
    (n : Network) (p : Text) (nets : Dict Network Text)
    → IsNetwork n
    → AreValid nets
    → AreValid (insert n p nets)
unfolding insert
insert-AreValid n p [] v all = (v, tt)
insert-AreValid n p ((m, q) ∷ nets) v (w, all) =
    elim (n == m) as (λ b. AreValid (if b then (m, p) ∷ nets else (m, q) ∷ insert n p nets)) [
      | true ↦ (w, all)
      | false ↦ (w, insert-AreValid n p nets v all)
    ]

module _ (d : Dom) where
  note_network-AreValid :
      (o : Option Network) (p : Text) (nets : Dict Network Text)
      → IsValid o
      → AreValid nets
      → AreValid (note_network d o p nets)
  unfolding note_network
  note_network-AreValid none p nets v all = all
  note_network-AreValid (some n) p nets v all = insert-AreValid n p nets v all

  parse_some-IsValid : (o : Option Text) (n : Option Network) → parse_some d o ≡ ok n → IsValid n
  unfolding parse_some
  parse_some-IsValid none n h = subst IsValid (ok-injective none n h) tt
  parse_some-IsValid (some s) n h =
      after_known (ip_network s) _ n
        (λ m is last. subst IsValid (ok-injective (some m) n last) (ip_network-IsNetwork s m is)) h

  network_child :
      (child : Option d.Element) (o : Option Network)
      → (elim child [ none ↦ ok none | some x ↦ (do n ← network_of (d.text x); ok (some n)) ])
        ≡ ok o
      → IsValid o
  network_child none o h = subst IsValid (ok-injective none o h) tt
  network_child (some x) o h =
      after_known (network_of (d.text x)) _ o
        (λ n at last.
          subst IsValid (ok-injective (some n) o last) (network_of-IsNetwork (d.text x) n at))
        h

  match_child :
      (child other : Option d.Element) (o : Option Network)
      → (elim child [
        | some m ↦ parse_some d (match_text d (d.text m))
        | none ↦ elim other [
          | none ↦ ok none
          | some x ↦ (do n ← network_of (d.text x); ok (some n))
        ]
      ])
        ≡ ok o
      → IsValid o
  match_child (some m) other o h = parse_some-IsValid (match_text d (d.text m)) o h
  match_child none other o h = network_child other o h

  unit_network-IsValid : (e : d.Element) (o : Option Network) → unit_network d e ≡ ok o → IsValid o
  unfolding unit_network
  unit_network-IsValid e o h =
      match_child (d.find e (codes "network_match")) (d.find e (codes "network")) o h

  fill_netclasses-AreValid :
      (limit : ℕ) (nets nets' : Dict Network Text) (e : d.Element) (profile : Text)
      → fill_netclasses d limit nets e profile ≡ ok nets'
      → AreValid nets
      → AreValid nets'
  unfolding fill_netclasses
  fill_netclasses-AreValid zero nets nets' e profile h all = absurd (cc)
  fill_netclasses-AreValid (suc limit) nets nets' e profile h all =
      after_known (unit_network d e) _ nets'
        (λ o is rest.
          fold_keeps (λ acc sub. fill_netclasses d limit acc sub (unit_profile d e profile))
            AreValid
            (λ acc acc' sub at.
              fill_netclasses-AreValid limit acc acc' sub (unit_profile d e profile) at)
            (subunits d e) _ nets' rest
            (note_network-AreValid o (unit_profile d e profile) nets (unit_network-IsValid e o is)
              all))
        h

  -- The networks of `netclasses` are well formed.
  pub read_netclasses-AreValid :
      (limit : ℕ) (root : d.Element) (nets : Dict Network Text)
      → read_netclasses d limit root ≡ ok nets
      → AreValid nets
  unfolding read_netclasses
  read_netclasses-AreValid limit root nets h =
      after_known (or_raise attribute_error (d.find root (codes "ou"))) _ nets
        (λ ou _ rest. fill_netclasses-AreValid limit [] nets ou (codes "workstation") rest tt) h
