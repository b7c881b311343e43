-- ===== src/ReverseZones/Listed.antt =====
-- Which files the bundle lists for the reverse zones.
use umbrella_linux.Base.{
  ◌≡◌, refl, sym, ap, subst, true, false, [], ◌∷◌, Text, ok, In, here, there, arith, text_eq,
  nat_eq, if◌then◌else◌, Bool-cases, inl, inr, ◌⊎◌, In-cons, In-append, In-append_left,
  In-append_right, map, length,
}
use umbrella_linux.Base.Dict.{Dict}
use umbrella_linux.Base.Places.{In-map, map-In, In-get_elem?, get_elem?-In}
use umbrella_linux.Net.{Network}
use umbrella_linux.Net.Each.{count_up, In-count_up}
use umbrella_linux.RevZones.{is_served}
use umbrella_linux.ReverseZones.{
  Setting, linking_of, link_file, served_file, served_files, zone_files,
}
use umbrella_linux.Xml.{Dom}
use umbrella_linux.Networks.{read_networks}
use umbrella_linux.Networks.Read.{read_networks-AreNetworks, read_networks-iftypes}
use umbrella_linux.ReverseZones.Files.{
  StandsFor, HaveTypes, link_file-StandsFor, served_file-StandsFor,
}

served_file-In :
    (t : Text) (n : Network) (nets : Dict Text Network)
    → In (t, n) nets
    → is_served t ≡ true
    → In (served_file t) (served_files nets)
unfolding served_files
served_file-In t n [] h served = elim h [ ]
served_file-In t n ((k, m) ∷ nets) (here e) served =
    let same : t ≡ k = ap (λ z. z.0) e in
    rw (subst (λ z. is_served z ≡ true) same served) (here (ap served_file same))
served_file-In t n ((k, m) ∷ nets) (there h) served =
    elim (is_served k)
      as (λ b.
        In (served_file t) (if b then served_file k ∷ served_files nets else served_files nets)) [
          | true ↦ there (served_file-In t n nets h served)
          | false ↦ served_file-In t n nets h served
        ]

-- A network of the dict that has a file of this name.
abbrev pub ServedBy : Dict Text Network → Text → Type 0
ServedBy nets name =
    (t : Text) × (n : Network) × In (t, n) nets × (is_served t ≡ true) × (name ≡ served_file t)

ServedBy-later :
    (k : Text) (m : Network) (nets : Dict Text Network) (name : Text)
    → ServedBy nets name
    → ServedBy ((k, m) ∷ nets) name
ServedBy-later k m nets name (t, n, i, served, e) = (t, n, there i, served, e)

served_files-In :
    (name : Text) (nets : Dict Text Network) → In name (served_files nets) → ServedBy nets name
unfolding served_files
served_files-In name [] h = elim h [ ]
served_files-In name ((k, m) ∷ nets) h = elim (Bool-cases (is_served k)) [
  | inl served ↦
      let listed : In name (served_file k ∷ served_files nets) = rw served at h in
      elim (In-cons name (served_file k) (served_files nets) listed) [
        | inl e ↦ (k, m, here refl, served, e)
        | inr i ↦ ServedBy-later k m nets name (served_files-In name nets i)
      ]
  | inr other ↦ ServedBy-later k m nets name (served_files-In name nets (rw other at h))
]

-- Every linking network and every network that reverse zones are made for has a file in the bundle,
-- which the template takes for that network, and every file of the bundle is one of these, if the
-- networks are those of umbrella.xml.
pub zone_files-StandsFor :
    (d : Dom) (root : d.Element) (s : Setting)
    → read_networks d root ≡ ok s.networks
    → ((n : Network)
        → In n (linking_of s)
        → (name : Text) × In name (zone_files s) × StandsFor s name true n)
      × ((t : Text) (n : Network)
          → In (t, n) s.networks
          → is_served t ≡ true
          → In (served_file t) (zone_files s) × StandsFor s (served_file t) false n)
      × ((name : Text)
          → In name (zone_files s)
          → ((n : Network) × In n (linking_of s) × StandsFor s name true n)
            ⊎ ((t : Text) × (n : Network) × In (t, n) s.networks
                × (is_served t ≡ true)
                × StandsFor s name false n))
unfolding zone_files
zone_files-StandsFor d root s read =
    let types : HaveTypes s.networks = (
      read_networks-iftypes d root s.networks read,
      (read_networks-AreNetworks d root s.networks read).1,
    ) in
    let linked = count_up (length (linking_of s)) 0 in
    (
      λ n i.
          let (k, low, at) = In-get_elem? n (linking_of s) i in
          (
            link_file k,
            In-append_left (link_file k) (map link_file linked) (served_files s.networks) (
                In-map link_file k linked
                  ((In-count_up k (length (linking_of s)) 0).1 (omega arith, omega arith))),
            link_file-StandsFor s k n at,
          ),
      λ t n i served. (
        In-append_right (served_file t) (map link_file linked) (served_files s.networks)
            (served_file-In t n s.networks i served),
        served_file-StandsFor s t n types i,
      ),
      λ name i. elim (In-append name (map link_file linked) (served_files s.networks) i) [
        | inl j ↦
            let (k, counted, e) = map-In link_file name linked j in
            let range = (In-count_up k (length (linking_of s)) 0).0 counted in
            let (n, member, at) = get_elem?-In (linking_of s) k (omega (arith, range.1)) in
            inl
              (n, member, subst (λ z. StandsFor s z true n) (sym e) (link_file-StandsFor s k n at))
        | inr j ↦
            let (t, n, member, served, e) = served_files-In name s.networks j in
            inr (
              t,
              n,
              member,
              served,
              subst (λ z. StandsFor s z false n) (sym e) (served_file-StandsFor s t n types member),
            )
      ],
    )
