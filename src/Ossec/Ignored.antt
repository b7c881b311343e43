-- ===== src/Ossec/Ignored.antt =====
-- Which paths 45_ossec.py ignores.
use umbrella_linux.Base.{
  ◌≡◌, refl, ◌↔◌, ◌⊎◌, inl, inr, Bool, true, false, List, [], ◌∷◌, ◌++◌, some, Text, if◌then◌else◌,
  ok, fold_result, arith, In, here, there, In-append, In-append_left, In-append_right, fold_source,
  fold_reaches, >>=-eq-ok, subst, sym, ok-injective, Option-cases,
}
use umbrella_linux.Text.{codes, starts_with}
use umbrella_linux.Text.Order.{sorted, IsSorted, sorted-IsSorted, sorted-In}
use umbrella_linux.Xml.{Dom}
use umbrella_linux.Ossec.{
  always_ignored, note_path, read_path, read_structure, collect_paths, ignored_paths,
}

noted_In :
    (b : Bool) (path q : Text) (s : List Text)
    → In path (if b then s ++ (q ∷ []) else s)
    → In path s ⊎ ((path ≡ q) × (b ≡ true))
noted_In false path q s i = inl i
noted_In true path q s i = elim (In-append path s (q ∷ []) i) [
  | inl j ↦ inl j
  | inr (here e) ↦ inr (e, refl)
  | inr (there j) ↦ elim j [ ]
]

noted-kept :
    (b : Bool) (path q : Text) (s : List Text)
    → In path s
    → In path (if b then s ++ (q ∷ []) else s)
noted-kept false path q s i = i
noted-kept true path q s i = In-append_left path s (q ∷ []) i

module _ (d : Dom) where
  -- The name of a `Path` element, where it starts with /etc.
  abbrev pub IsEtcPath : Text → d.Element → Type 0
  IsEtcPath path e =
      (d.attribute e (codes "name") ≡ some path) × (starts_with path (codes "/etc") ≡ true)

  -- A path that a structure of bcfg2 has under /etc.
  abbrev pub IsManaged : Text → d.Element → Type 0
  IsManaged path struct = (e : d.Element) × In e (d.iter struct (codes "Path")) × IsEtcPath path e

  read_path_inv :
      (s s' : List Text) (e : d.Element)
      → read_path d s e ≡ ok s'
      → (q : Text) × (d.attribute e (codes "name") ≡ some q)
        × (s' ≡ (if starts_with q (codes "/etc") then s ++ (q ∷ []) else s))
  unfolding read_path note_path
  read_path_inv s s' e h = elim (Option-cases (d.attribute e (codes "name"))) [
    | inl missing ↦ absurd (ground arith)
    | inr (q, has) ↦ (q, has, ground arith)
  ]

  read_path_source :
      (path : Text) (s s' : List Text) (e : d.Element)
      → read_path d s e ≡ ok s'
      → In path s'
      → In path s ⊎ IsEtcPath path e
  read_path_source path s s' e h i =
      let (q, has, new) = read_path_inv s s' e h in
      elim (noted_In (starts_with q (codes "/etc")) path q s (subst (In path) new i)) [
        | inl j ↦ inl j
        | inr (same, etc) ↦ inr (
          subst (λ z. d.attribute e (codes "name") ≡ some z) (sym same) has,
          subst (λ z. starts_with z (codes "/etc") ≡ true) (sym same) etc,
        )
      ]

  read_path_noted :
      (path : Text) (s s' : List Text) (e : d.Element)
      → read_path d s e ≡ ok s'
      → d.attribute e (codes "name") ≡ some path
      → starts_with path (codes "/etc") ≡ true
      → s ++ (path ∷ []) ≡ s'
  unfolding read_path note_path
  read_path_noted path s s' e h is etc = ground arith

  read_path_reaches :
      (path : Text) (s s' : List Text) (e : d.Element)
      → read_path d s e ≡ ok s'
      → In path s ⊎ IsEtcPath path e
      → In path s'
  read_path_reaches path s s' e h (inl i) =
      let (q, has, new) = read_path_inv s s' e h in
      subst (In path) (sym new) (noted-kept (starts_with q (codes "/etc")) path q s i)
  read_path_reaches path s s' e h (inr (is, etc)) =
      subst (In path) (read_path_noted path s s' e h is etc)
        (In-append_right path s (path ∷ []) (here refl))

  read_structure_source :
      (path : Text) (s s' : List Text) (struct : d.Element)
      → read_structure d s struct ≡ ok s'
      → In path s'
      → In path s ⊎ IsManaged path struct
  unfolding read_structure
  read_structure_source path s s' struct h i =
      fold_source (read_path d) (In path) (IsEtcPath path) (read_path_source path)
        (d.iter struct (codes "Path")) s s' h i

  read_structure_reaches :
      (path : Text) (s s' : List Text) (struct : d.Element)
      → read_structure d s struct ≡ ok s'
      → In path s ⊎ IsManaged path struct
      → In path s'
  unfolding read_structure
  read_structure_reaches path s s' struct h i =
      fold_reaches (read_path d) (In path) (IsEtcPath path) (read_path_reaches path)
        (d.iter struct (codes "Path")) s s' h i

  -- If the structures of bcfg2 are found and read without an error, the ignored paths are in
  -- order, and they are those that are always ignored and the paths under /etc that the
  -- structures have.
  pub ignored_paths-IsManaged :
      (structures : List d.Element) (l : List Text) (path : Text)
      → ignored_paths d (some structures) ≡ ok l
      → IsSorted l
        × (In path l ↔ (
            In path always_ignored
            ⊎ ((struct : d.Element) × In struct structures × IsManaged path struct)))
  unfolding ignored_paths collect_paths
  ignored_paths-IsManaged structures l path h =
      let (found, e, last) =
        >>=-eq-ok (fold_result (read_structure d) always_ignored structures) _ h in
      subst
        (λ r.
          IsSorted r
          × (In path r ↔ (
              In path always_ignored
              ⊎ ((struct : d.Element) × In struct structures × IsManaged path struct))))
        (ok-injective (sorted found) l last)
        (
          sorted-IsSorted found,
          (
            λ i.
                fold_source (read_structure d) (In path) (IsManaged path)
                  (read_structure_source path) structures always_ignored found e
                  ((sorted-In path found).0 i),
            λ i. (sorted-In path found).1 (
                fold_reaches (read_structure d) (In path) (IsManaged path)
                  (read_structure_reaches path) structures always_ignored found e i),
          ),
        )
