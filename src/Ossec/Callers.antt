-- ===== src/Ossec/Callers.antt =====
-- Python/45_ossec.py: the whole script, with the structures of the nearest caller that has them.
use umbrella_linux.Base.{
  ◌≡◌, refl, ◌↔◌, ◌⊎◌, inl, inr, List, [], ◌∷◌, ◌++◌, Option, none, some, Option-cases, Text, ok,
  In, All, ap, ◌∙◌, subst, ok-injective, arith,
}
use umbrella_linux.Text.Order.{sorted, IsSorted, sorted-IsSorted, sorted-In}
use umbrella_linux.Xml.{Dom}
use umbrella_linux.Ossec.{
  Frame, find_structures, always_ignored, ignored_paths, ossec_paths, collect_paths,
}
use umbrella_linux.Ossec.Ignored.{IsManaged, ignored_paths-IsManaged}

module _ (d : Dom) where
  -- A caller with no structures.
  abbrev pub IsPoor : Frame d → Type 0
  IsPoor none = Unit
  IsPoor (some none) = Unit
  IsPoor (some (some structures)) = ⊥

  -- The structures of the nearest caller that has some.
  abbrev pub IsNearest : List (Frame d) → List d.Element → Type 0
  IsNearest frames structures =
      (nearer : List (Frame d)) × (others : List (Frame d)) × (frames
        ≡ nearer ++ (some (some structures) ∷ others))
      × All IsPoor nearer

  past :
      (nearer others : List (Frame d)) (structures : List d.Element)
      → All IsPoor nearer
      → find_structures d (nearer ++ (some (some structures) ∷ others)) ≡ some structures
  unfolding find_structures
  past [] others structures poor = refl
  past (none ∷ nearer) others structures (_, poor) = past nearer others structures poor
  past (some none ∷ nearer) others structures (_, poor) = past nearer others structures poor
  past (some (some s) ∷ nearer) others structures (rich, _) = absurd rich

  farther :
      (f : Frame d) (frames : List (Frame d)) (s : List d.Element)
      → IsPoor f
      → IsNearest frames s
      → IsNearest (f ∷ frames) s
  farther f frames s poor (nearer, others, e, all) =
      (f ∷ nearer, others, ap (λ l. f ∷ l) e, (poor, all))

  found :
      (frames : List (Frame d)) (s : List d.Element)
      → find_structures d frames ≡ some s
      → IsNearest frames s
  unfolding find_structures
  found [] s h = absurd (cc)
  found (none ∷ frames) s h = farther none frames s tt (found frames s h)
  found (some none ∷ frames) s h = farther (some none) frames s tt (found frames s h)
  found (some (some t) ∷ frames) s h = ([], frames, ap (λ o. some o ∷ frames) h, tt)

  nearest_found :
      (frames : List (Frame d)) (s : List d.Element)
      → IsNearest frames s
      → find_structures d frames ≡ some s
  nearest_found frames s (nearer, others, e, poor) =
      ap (find_structures d) e ∙ past nearer others s poor

  -- Why a path is ignored beyond those that always are.
  abbrev pub IsUnderBcfg2 : List (Frame d) → Text → Type 0
  IsUnderBcfg2 frames path =
      (structures : List d.Element) × IsNearest frames structures
      × ((struct : d.Element) × In struct structures × IsManaged d path struct)

  same_structures :
      (s t : List d.Element) (o : Option (List d.Element)) → o ≡ some s → o ≡ some t → s ≡ t
  same_structures s t o h k = ground arith

  no_structures : (t : List d.Element) (o : Option (List d.Element)) → o ≡ none → o ≡ some t → ⊥
  no_structures t o h k = cc

  -- If the script ends, the ignored paths are in order, and they are those that are always ignored
  -- and the paths under /etc that the structures of its nearest caller with structures have; where
  -- no caller has structures, they are those that are always ignored.
  pub ossec_paths-IsUnderBcfg2 :
      (frames : List (Frame d)) (l : List Text) (path : Text)
      → ossec_paths d frames ≡ ok l
      → IsSorted l × (In path l ↔ (In path always_ignored ⊎ IsUnderBcfg2 frames path))
  unfolding ossec_paths ignored_paths collect_paths
  ossec_paths-IsUnderBcfg2 frames l path h = elim (Option-cases (find_structures d frames)) [
    | inl nothing ↦
        let is : sorted always_ignored ≡ l =
          ok-injective (sorted always_ignored) l (rw (nothing, ossec_paths) at h) in
        subst (λ k. IsSorted k × (In path k ↔ (In path always_ignored ⊎ IsUnderBcfg2 frames path)))
          is
          (
            sorted-IsSorted always_ignored,
            (
              λ i. inl ((sorted-In path always_ignored).0 i),
              λ o. (sorted-In path always_ignored).1 (elim o [
                | inl always ↦ always
                | inr (t, nearest, _) ↦ absurd (
                    no_structures t (find_structures d frames) nothing
                      (nearest_found frames t nearest))
              ]),
            ),
          )
    | inr (s, has) ↦
        let (order, paths) = ignored_paths-IsManaged d s l path (rw (has, ossec_paths) at h) in
        (
          order,
          (
            λ i. elim (paths.0 i) [
              | inl always ↦ inl always
              | inr managed ↦ inr (s, found frames s has, managed)
            ],
            λ o. paths.1 (elim o [
              | inl always ↦ inl always
              | inr (t, nearest, managed) ↦ inr (
                  subst (λ u. (struct : d.Element) × In struct u × IsManaged d path struct)
                    (same_structures t s (find_structures d frames) (nearest_found frames t nearest)
                      has)
                    managed)
            ]),
          ),
        )
  ]
