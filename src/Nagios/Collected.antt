-- ===== src/Nagios/Collected.antt =====
-- Documentation/hacks/nagios_map/update_nagios: what is collected on a path.
use umbrella_linux.Base.{
  In-added, fold_reaches, ◌≡◌, refl, ◌↔◌, ◌⊎◌, inl, inr, true, ◌||◌, List, [], ◌++◌, Option, none,
  some, Option-cases, Bool-cases, Text, text_eq, ok, fold_source, after_known, ok-injective, ℤ, In,
  sym, ◌∙◌, subst, arith,
}
use umbrella_linux.Text.{codes, starts_with}
use umbrella_linux.Timestamp.{two_digits}
use umbrella_linux.Xml.{Dom}
use umbrella_linux.Nagios.{
  Topology, add_to, priority_of, identifier_of, note_host, collect_all_in_path,
}

same_some : (a b : Text) (o : Option Text) → o ≡ some a → o ≡ some b → a ≡ b
same_some a b o h k = ground arith

same_text :
    (p q : ℤ) (a b : Text)
    → p ≡ q
    → a ≡ b
    → two_digits p ++ codes "_" ++ a ≡ two_digits q ++ codes "_" ++ b
same_text p q a b e f = rw (e, f) refl

module _ (d : Dom) (lan : Topology d) where
  -- An element that is collected, and how it is named in the set.
  abbrev pub IsNamed : Text → d.Element → Type 0
  IsNamed x e =
      ((starts_with (d.tag e) (codes "switch") || starts_with (d.tag e) (codes "host")) ≡ true)
      × ((priority : ℤ) × (identifier : Text) × (priority_of d e ≡ ok priority)
          × (identifier_of d e ≡ some identifier)
          × (x ≡ two_digits priority ++ codes "_" ++ identifier))

  note_host-IsNamed :
      (x : Text) (s s' : List Text) (e : d.Element)
      → note_host d s e ≡ ok s'
      → In x s' ↔ (In x s ⊎ IsNamed x e)
  unfolding note_host
  note_host-IsNamed x s s' e h =
      elim (Bool-cases
        (starts_with (d.tag e) (codes "switch") || starts_with (d.tag e) (codes "host"))) [
          | inr other ↦
              let new : s ≡ s' = ok-injective s s' (rw (other, note_host) at h) in
              (
                λ i. inl (subst (In x) (sym new) i),
                λ o. elim o [
                  | inl i ↦ subst (In x) new i
                  | inr (shown, _) ↦ absurd (cc (other, shown))
                ],
              )
          | inl shown ↦
              after_known (priority_of d e)
                (λ priority. ok (elim (identifier_of d e) [
                  | none ↦ s
                  | some identifier ↦ add_to (two_digits priority ++ codes "_" ++ identifier) s
                ]))
                s'
                (λ priority given last. elim (Option-cases (identifier_of d e)) [
                  | inl missing ↦
                      let new : s ≡ s' = ok-injective s s' (rw missing at last) in
                      (
                        λ i. inl (subst (In x) (sym new) i),
                        λ o. elim o [
                          | inl i ↦ subst (In x) new i
                          | inr (_, (_, name, _, named, _)) ↦ absurd (cc (missing, named))
                        ],
                      )
                  | inr (identifier, has) ↦
                      let text = two_digits priority ++ codes "_" ++ identifier in
                      let new : add_to text s ≡ s' =
                        ok-injective (add_to text s) s' (rw has at last) in
                      (
                        λ i. elim ((In-added x text s).0 (subst (In x) (sym new) i)) [
                          | inl j ↦ inl j
                          | inr e ↦ inr (shown, (priority, identifier, given, has, e))
                        ],
                        λ o. subst (In x) new (
                            (In-added x text s).1 (elim o [
                              | inl i ↦ inl i
                              | inr (_, (p, name, given', named, f)) ↦ inr (
                                  f
                                  ∙ same_text p priority name identifier
                                      (ok-injective p priority (sym given' ∙ given))
                                      (same_some name identifier (identifier_of d e) named has))
                            ])),
                      )
                ])
                (rw (shown, note_host) at h)
        ]

  -- A host that is collected on a path.
  abbrev pub IsCollected : Text → Text → Type 0
  IsCollected path x = (e : d.Element) × In e (lan.findall path) × IsNamed x e

  pub collect_all_in_path-IsCollected :
      (path x : Text) (s : List Text)
      → collect_all_in_path d lan path ≡ ok s
      → In x s ↔ IsCollected path x
  unfolding collect_all_in_path
  collect_all_in_path-IsCollected path x s h = (
    λ i.
        elim (fold_source (note_host d) (In x) (IsNamed x)
          (λ t t' e k j. (note_host-IsNamed x t t' e k).0 j) (lan.findall path) [] s h i) [
            | inl j ↦ elim j [ ]
            | inr found ↦ found
          ],
    λ found.
        fold_reaches (note_host d) (In x) (IsNamed x)
          (λ t t' e k j. (note_host-IsNamed x t t' e k).1 j) (lan.findall path) [] s h (inr found),
  )
