-- ===== src/Ipclass/Classes.antt =====
-- Where the entries of `ipclasses` come from.
use umbrella_linux.Base.{
  ◌≡◌, refl, sym, ◌∙◌, ap, subst, ◌⊎◌, inl, inr, List, [], Option, none, some, Text, text_eq, ok,
  In, fold_source, fold_reaches, after_known, ok-injective, Option-cases, arith, ==_iff,
}
use mathlib.Core.Option.{some-injective}
use umbrella_linux.Base.Dict.{Dict, insert, lookup, insert_source, lookup-insert, lookup-nil}
use umbrella_linux.Text.{codes}
use umbrella_linux.Xml.{Dom, find_text}
use umbrella_linux.Ipclass.{shown, note_interface, note_interfaces, read_classes}

module _ (d : Dom) where
  -- An interface whose ip has this text.
  abbrev pub Bears : d.Element → Text → Type 0
  Bears e ip = (t : d.Element) × (d.find e (codes "ip") ≡ some t) × (shown (d.text t) ≡ ip)

  -- A server with this function.
  abbrev pub Does : d.Element → Text → Type 0
  Does server class =
      (f : Option Text) × (find_text d server (codes "function") ≡ ok f) × (shown f ≡ class)

  note_interface-none :
      (server e : d.Element) (s : Dict Text Text)
      → d.find e (codes "ip") ≡ none
      → note_interface d server s e ≡ ok s
  unfolding note_interface
  note_interface-none server e s missing = rw (missing, note_interface) refl

  -- The step for an interface with an ip.
  note_interface-some :
      (server e t : d.Element) (s s' : Dict Text Text)
      → d.find e (codes "ip") ≡ some t
      → note_interface d server s e ≡ ok s'
      → (f : Option Text) × (find_text d server (codes "function") ≡ ok f)
        × (insert (shown (d.text t)) (shown f) s ≡ s')
  unfolding note_interface
  note_interface-some server e t s s' is h =
      after_known (find_text d server (codes "function")) _ s'
        (λ f does last. (f, does, ok-injective _ s' last)) (rw (is, note_interface) at h)

  module _ (ip : Text) where
    Known : Dict Text Text → Type 0
    Known classes = (class : Text) × (lookup ip classes ≡ some class)

    note_interface_source :
        (server : d.Element) (class : Text) (s s' : Dict Text Text) (e : d.Element)
        → note_interface d server s e ≡ ok s'
        → lookup ip s' ≡ some class
        → (lookup ip s ≡ some class) ⊎ (Bears e ip × Does server class)
    note_interface_source server class s s' e h at = elim (Option-cases (d.find e (codes "ip"))) [
      | inl missing ↦
          let same : s ≡ s' =
            ok-injective s s' (sym (note_interface-none server e s missing) ∙ h) in
          inl (subst (λ z. lookup ip z ≡ some class) (sym same) at)
      | inr (t, is) ↦
          let (f, does, new) = note_interface-some server e t s s' is h in
          elim (insert_source ip (shown (d.text t)) (shown f) class s
            (subst (λ z. lookup ip z ≡ some class) (sym new) at)) [
              | inl old ↦ inl old
              | inr (same, value) ↦ inr ((t, is, sym same), (f, does, value))
            ]
    ]

    -- After an entry is written, its key and the keys before are there.
    Known-insert :
        (key value : Text) (s : Dict Text Text) → Known s ⊎ (key ≡ ip) → Known (insert key value s)
    unfolding Known
    Known-insert key value s (inl (class, at)) = elim (text_eq.dec ip key) [
      | yes e ↦ (value, ground (arith, lookup-insert ip key value s))
      | no e ↦ (class, ground (arith, lookup-insert ip key value s))
    ]
    Known-insert key value s (inr e) =
        (value, ground (arith, lookup-insert ip key value s, ==_iff ip key, sym e))

    note_interface_reach :
        (server : d.Element) (s s' : Dict Text Text) (e : d.Element)
        → note_interface d server s e ≡ ok s'
        → Known s ⊎ Bears e ip
        → Known s'
    note_interface_reach server s s' e h old = elim (Option-cases (d.find e (codes "ip"))) [
      | inl missing ↦
          let same : s ≡ s' =
            ok-injective s s' (sym (note_interface-none server e s missing) ∙ h) in
          elim old [
            | inl known ↦ subst Known same known
            | inr (t, is, _) ↦ absurd (cc (missing, is))
          ]
      | inr (t, is) ↦
          let (f, does, new) = note_interface-some server e t s s' is h in
          let kept : Known s ⊎ (shown (d.text t) ≡ ip) = elim old [
            | inl known ↦ inl known
            | inr (u, is', shows) ↦
                inr (ap (λ z. shown (d.text z)) (some-injective t u (sym is ∙ is')) ∙ shows)
          ] in
          subst Known new (Known-insert (shown (d.text t)) (shown f) s kept)
    ]

    -- A server with an interface of this address.
    abbrev pub HasInterface : List Text → d.Element → Type 0
    HasInterface types server = (e : d.Element) × In e (d.iter_any server types) × Bears e ip

    note_interfaces_source :
        (types : List Text) (class : Text) (s s' : Dict Text Text) (server : d.Element)
        → note_interfaces d types s server ≡ ok s'
        → lookup ip s' ≡ some class
        → (lookup ip s ≡ some class) ⊎ (HasInterface types server × Does server class)
    unfolding note_interfaces
    note_interfaces_source types class s s' server h at =
        elim (fold_source (note_interface d server) (λ z. lookup ip z ≡ some class)
          (λ e. Bears e ip × Does server class) (note_interface_source server class)
          (d.iter_any server types) s s' h at) [
            | inl old ↦ inl old
            | inr (e, i, (bears, does)) ↦ inr ((e, i, bears), does)
          ]

    note_interfaces_reach :
        (types : List Text) (s s' : Dict Text Text) (server : d.Element)
        → note_interfaces d types s server ≡ ok s'
        → Known s ⊎ HasInterface types server
        → Known s'
    unfolding note_interfaces
    note_interfaces_reach types s s' server h old =
        fold_reaches (note_interface d server) Known (λ e. Bears e ip) (note_interface_reach server)
          (d.iter_any server types) s s' h old

    -- An address is given the function of a server that has an interface with it.
    pub read_classes_source :
        (root : d.Element) (types : List Text) (classes : Dict Text Text) (class : Text)
        → read_classes d root types ≡ ok classes
        → lookup ip classes ≡ some class
        → (server : d.Element) × In server (d.findall root (codes "server"))
          × HasInterface types server
          × Does server class
    unfolding read_classes
    read_classes_source root types classes class h at =
        elim (fold_source (note_interfaces d types) (λ z. lookup ip z ≡ some class)
          (λ server. HasInterface types server × Does server class)
          (note_interfaces_source types class) (d.findall root (codes "server")) [] classes h at) [
            | inl old ↦ absurd (cc (old, lookup-nil {V = Text} ip))
            | inr (server, i, (on, does)) ↦ (server, i, on, does)
          ]

    -- An address that no entry has is on no interface of a server.
    pub read_classes-none :
        (root : d.Element) (types : List Text) (classes : Dict Text Text) (server : d.Element)
        → read_classes d root types ≡ ok classes
        → lookup ip classes ≡ none
        → In server (d.findall root (codes "server"))
        → HasInterface types server
        → ⊥
    unfolding read_classes Known
    read_classes-none root types classes server h missing i on =
        let (class, at) =
          fold_reaches (note_interfaces d types) Known (HasInterface types)
            (note_interfaces_reach types) (d.findall root (codes "server")) [] classes h
            (inr (server, i, on)) in
        cc (missing, at)
