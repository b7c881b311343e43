-- ===== src/Networks/Read.antt =====
-- What Python/20_networks.py reads from umbrella.xml is a dict of well-formed networks.
use umbrella_linux.Base.{
  true, false, ◌==◌, if◌then◌else◌, ◌≡◌, refl, [], ◌∷◌, Option, none, some, Text, text_eq, ok,
  ◌>>=◌, >>=-eq-ok, after_bind, after_known, In, here, there, ok-injective, All, subst,
  text_discrete, ℕ_discrete,
}
use umbrella_linux.Base.Dict.{Dict, lookup, insert, NodupKeys, insert-NodupKeys}
use umbrella_linux.Text.{codes}
use umbrella_linux.Interfaces.{iftypes, extif, intif, pubif, secif, dmz_if, vpnif, winif}
use umbrella_linux.Net.{Network, IsNetwork}
use umbrella_linux.Net.Parsed.{ip_network-IsNetwork}
use umbrella_linux.Networks.{network_of, required_net, optional_net, read_networks}
use umbrella_linux.Xml.{Dom, find_text}

-- A dict that has no key twice and only well-formed networks.
abbrev pub AreNetworks : Dict Text Network → Type 0
AreNetworks nets = All (λ (_, n). IsNetwork n) nets × NodupKeys nets

pub network_of-IsNetwork : (o : Option Text) (n : Network) → network_of o ≡ ok n → IsNetwork n
network_of-IsNetwork none n h = absurd (cc)
network_of-IsNetwork (some s) n h = ip_network-IsNetwork s n h

insert-All :
    (k : Text) (n : Network) (nets : Dict Text Network)
    → IsNetwork n
    → All (λ (_, m). IsNetwork m) nets
    → All (λ (_, m). IsNetwork m) (insert k n nets)
unfolding insert
insert-All k n [] v all = (v, tt)
insert-All k n ((j, m) ∷ nets) v (w, all) =
    elim (k == j)
      as (λ b.
        All (λ (_, m). IsNetwork m) (if b then (j, n) ∷ nets else (j, m) ∷ insert k n nets)) [
          | true ↦ (v, all)
          | false ↦ (w, insert-All k n nets v all)
        ]

insert_key-All :
    (k : Text) (n : Network) (nets : Dict Text Network)
    → In k iftypes
    → All (λ (t, _). In t iftypes) nets
    → All (λ (t, _). In t iftypes) (insert k n nets)
unfolding insert
insert_key-All k n [] i all = (i, tt)
insert_key-All k n ((j, m) ∷ nets) i (w, all) =
    elim (k == j)
      as (λ b.
        All (λ (t, _). In t iftypes) (if b then (j, n) ∷ nets else (j, m) ∷ insert k n nets)) [
          | true ↦ (w, all)
          | false ↦ (w, insert_key-All k n nets i all)
        ]

intif-In : In intif iftypes
intif-In = there (here refl)

pubif-In : In pubif iftypes
pubif-In = there (there (here refl))

secif-In : In secif iftypes
secif-In = there (there (there (here refl)))

dmz_if-In : In dmz_if iftypes
dmz_if-In = there (there (there (there (here refl))))

vpnif-In : In vpnif iftypes
vpnif-In = there (there (there (there (there (here refl)))))

winif-In : In winif iftypes
winif-In = there (there (there (there (there (there (here refl))))))

module _ (d : Dom) (root : d.Element) where
  required_net-IsNetwork :
      (name : Text) (n : Network) → required_net d root name ≡ ok n → IsNetwork n
  unfolding required_net
  required_net-IsNetwork name n h =
      after_bind (find_text d root name) _ n (λ t. network_of-IsNetwork t n) h

  -- What holds of the three networks that every configuration has, and stays true when a network of
  -- another interface type is added, holds of the networks that are read.
  module _ (P : Dict Text Network → Type 0)
      (add : (key : Text) (n : Network) (nets : Dict Text Network)
        → In key iftypes
        → IsNetwork n
        → P nets
        → P (insert key n nets)) where
    optional_of :
        (o : Option d.Element) (key : Text) (nets nets' : Dict Text Network)
        → In key iftypes
        → (elim o [
          | none ↦ ok nets
          | some e ↦ (do n ← network_of (d.text e); ok (insert key n nets))
        ])
          ≡ ok nets'
        → P nets
        → P nets'
    optional_of none key nets nets' i h p = subst P (ok-injective nets nets' h) p
    optional_of (some e) key nets nets' i h p =
        after_known (network_of (d.text e)) _ nets'
          (λ n is h1.
            subst P (ok-injective _ nets' h1)
              (add key n nets i (network_of-IsNetwork (d.text e) n is) p))
          h

    optional_net_keeps :
        (name key : Text) (nets nets' : Dict Text Network)
        → In key iftypes
        → optional_net d root name key nets ≡ ok nets'
        → P nets
        → P nets'
    unfolding optional_net
    optional_net_keeps name key nets nets' i h = optional_of (d.find root name) key nets nets' i h

    pub read_networks_rule :
        (nets : Dict Text Network)
        → ((a b c : Network)
            → IsNetwork a
            → IsNetwork b
            → IsNetwork c
            → P ((pubif, a) ∷ (secif, b) ∷ (dmz_if, c) ∷ []))
        → read_networks d root ≡ ok nets
        → P nets
    unfolding read_networks
    read_networks_rule nets three h =
        after_known (required_net d root (codes "pubnet")) _ nets
          (λ a ha. after_known (required_net d root (codes "secnet")) _ nets (λ b hb.
            after_known (required_net d root (codes "DMZnet")) _ nets (λ c hc.
              after_known (optional_net d root (codes "extnet") extif _) _ nets (λ x hx.
                after_known (optional_net d root (codes "intnet") intif x) _ nets (λ y hy.
                  after_known (optional_net d root (codes "winnet") winif y) _ nets (λ z hz last.
                    optional_net_keeps (codes "vpnet") vpnif z nets vpnif-In last (
                      optional_net_keeps (codes "winnet") winif y z winif-In hz (
                        optional_net_keeps (codes "intnet") intif x y intif-In hy (
                          optional_net_keeps (codes "extnet") extif _ x (here refl) hx (
                            three a b c (required_net-IsNetwork _ a ha)
                              (required_net-IsNetwork _ b hb)
                              (required_net-IsNetwork _ c hc)))))))))))
          h

  three-AreNetworks :
      (a b c : Network)
      → IsNetwork a
      → IsNetwork b
      → IsNetwork c
      → AreNetworks ((pubif, a) ∷ (secif, b) ∷ (dmz_if, c) ∷ [])
  unfolding lookup text_eq text_discrete ℕ_discrete
  three-AreNetworks a b c ha hb hc = ((ha, (hb, (hc, tt))), (refl, (refl, (refl, tt))))

  pub read_networks-AreNetworks :
      (nets : Dict Text Network) → read_networks d root ≡ ok nets → AreNetworks nets
  read_networks-AreNetworks nets h =
      read_networks_rule AreNetworks
        (λ key n l i v (all, u). (insert-All key n l v all, insert-NodupKeys key n l u)) nets
        three-AreNetworks h

  -- The networks that are read have the names of interface types.
  pub read_networks-iftypes :
      (nets : Dict Text Network)
      → read_networks d root ≡ ok nets
      → All (λ (t, _). In t iftypes) nets
  read_networks-iftypes nets h =
      read_networks_rule (All (λ (t, _). In t iftypes))
        (λ key n l i _ all. insert_key-All key n l i all) nets
        (λ a b c _ _ _. (pubif-In, (secif-In, (dmz_if-In, tt)))) h

  -- The texts of the networks that every configuration has can be read again.
  pub required_net-network_of :
      (name : Text) (n : Network)
      → required_net d root name ≡ ok n
      → (t : Option Text) × (find_text d root name ≡ ok t) × (network_of t ≡ ok n)
  unfolding required_net
  required_net-network_of name n h = >>=-eq-ok (find_text d root name) _ h

  pub read_networks_first :
      (nets : Dict Text Network)
      → read_networks d root ≡ ok nets
      → (a : Network) × (b : Network) × (required_net d root (codes "pubnet") ≡ ok a)
        × (required_net d root (codes "secnet") ≡ ok b)
  unfolding read_networks
  read_networks_first nets h =
      after_known (required_net d root (codes "pubnet")) _ nets
        (λ a ha.
          after_known (required_net d root (codes "secnet")) _ nets (λ b hb _. (a, b, ha, hb)))
        h
