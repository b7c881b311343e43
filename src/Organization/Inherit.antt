-- ===== src/Organization/Inherit.antt =====
-- A network has the profile of the nearest unit at or above its own that names one.
use umbrella_linux.Base.{
  ℕ, zero, suc, ◌≡◌, sym, ◌∙◌, ap, List, [], ◌∷◌, Option, none, some, Text, ok, >>=-eq-ok, arith,
  In, ◌⊎◌, inl, inr, fold_source,
}
use umbrella_linux.Base.Dict.{Dict, lookup, lookup-insert}
use umbrella_linux.Net.{Network, network_eq}
use umbrella_linux.Xml.{Dom}
use umbrella_linux.Organization.{
  subunits, unit_network, unit_profile, note_network, fill_netclasses,
}
use umbrella_linux.Organization.Chains.{Chain, stop, down}

module _ (d : Dom) where
  -- The profile at the end of a chain of units, from the one at its start.
  abbrev pub inherited : Text → List d.Element → Text
  inherited profile [] = profile
  inherited profile (e ∷ l) = inherited (unit_profile d e profile) l

  -- Where an entry of the dict comes from: a unit of that network below `e`, at the end of a chain.
  pub record Declared (e : d.Element) (profile : Text) (n : Network) (q : Text) : Type 0 where
    pub chain : List d.Element
    pub unit : d.Element
    pub leads : Chain d e chain unit
    pub network : unit_network d unit ≡ ok (some n)
    pub nearest : inherited profile chain ≡ q

  pub note_network-lookup :
      (network : Option Network) (profile : Text) (nets : Dict Network Text) (n : Network)
      (q : Text)
      → lookup n (note_network d network profile nets) ≡ some q
      → (lookup n nets ≡ some q) ⊎ ((network ≡ some n) × (profile ≡ q))
  unfolding note_network
  note_network-lookup none profile nets n q h = inl h
  note_network-lookup (some m) profile nets n q h = elim (network_eq.dec n m) [
    | yes e ↦ inr (ap some (sym e), ground (arith, lookup-insert n m profile nets))
    | no e ↦ inl (ground (arith, lookup-insert n m profile nets))
  ]

  Declared-here :
      (e : d.Element) (profile : Text) (n : Network) (q : Text)
      → unit_network d e ≡ ok (some n)
      → unit_profile d e profile ≡ q
      → Declared e profile n q
  Declared-here e profile n q network nearest = record {
    chain = e ∷ [];
    unit = e;
    leads = stop e;
    network = network;
    nearest = nearest;
  }

  Declared-below :
      (e s : d.Element) (profile : Text) (n : Network) (q : Text)
      → In s (subunits d e)
      → Declared s (unit_profile d e profile) n q
      → Declared e profile n q
  Declared-below e s profile n q i h = record {
    chain = e ∷ h.chain;
    unit = h.unit;
    leads = down i h.leads;
    network = h.network;
    nearest = h.nearest;
  }

  -- Every entry of the dict was there before, or a unit declares it.
  pub fill_new :
      (n : Network) (q : Text) (limit : ℕ) (nets after : Dict Network Text) (e : d.Element)
      (profile : Text)
      → fill_netclasses d limit nets e profile ≡ ok after
      → lookup n after ≡ some q
      → (lookup n nets ≡ some q) ⊎ Declared e profile n q
  unfolding fill_netclasses
  fill_new n q zero nets after e profile h look = absurd (cc)
  fill_new n q (suc limit) nets after e profile h look =
      let (network, read, loop) = >>=-eq-ok (unit_network d e) _ h in
      let below = unit_profile d e profile in
      elim (fold_source (λ acc sub. fill_netclasses d limit acc sub below)
        (λ acc. lookup n acc ≡ some q) (λ s. Declared s below n q)
        (λ acc acc' s run found. fill_new n q limit acc acc' s below run found) (subunits d e)
        (note_network d network below nets) after loop look) [
          | inl found ↦ elim (note_network-lookup network below nets n q found) [
            | inl old ↦ inl old
            | inr (same, p) ↦ inr (Declared-here e profile n q (read ∙ ap ok same) p)
          ]
          | inr (s, i, h') ↦ inr (Declared-below e s profile n q i h')
        ]
