-- ===== src/BaseParams/Domains.antt =====
-- Which domains 00_baseparams.py lists, and which of them it notifies for.
use umbrella_linux.Base.{
  ◌≡◌, refl, ◌↔◌, ◌⊎◌, inl, inr, true, false, List, [], ◌∷◌, ◌++◌, Option, none, some, Text, ok,
  type_error, or_raise, fold_result, map_result, ◌>>=◌, map, text_eq, option_eq, arith, In, here,
  there, In-append, In-append_left, In-append_right, fold_source, fold_reaches, >>=-eq-ok,
  ok-injective, subst, sym, ap, ◌∙◌, Bool-cases,
}
use umbrella_linux.Text.{codes}
use umbrella_linux.Text.Order.{sorted, sorted-In}
use umbrella_linux.Xml.{Dom, has_child, find_text}
use umbrella_linux.BaseParams.{
  DomainLists, no_domains, insert_some, sort_names, note_domain, read_domain, read_domains,
  stripped_texts,
}

some-In : (t : Text) (l : List Text) → In t l → In (some t) (map some l)
some-In t [] i = elim i [ ]
some-In t (u ∷ l) (here e) = here (ap some e)
some-In t (u ∷ l) (there i) = there (some-In t l i)

map-some-In :
    (n : Option Text) (l : List Text) → In n (map some l) → (t : Text) × (n ≡ some t) × In t l
map-some-In n [] i = elim i [ ]
map-some-In n (u ∷ l) (here e) = (u, e, here refl)
map-some-In n (u ∷ l) (there i) = let (t, e, j) = map-some-In n l i in (t, e, there j)

-- One list of names has the names of another.
map-some-Subset :
    (n : Option Text) (l k : List Text)
    → ((t : Text) → In t l → In t k)
    → In n (map some l)
    → In n (map some k)
map-some-Subset n l k h i =
    let (t, e, j) = map-some-In n l i in
    subst (λ z. In z (map some k)) (sym e) (some-In t k (h t j))

all_some :
    (l : List (Option Text)) (k : List Text)
    → map_result (or_raise type_error) l ≡ ok k
    → l ≡ map some k
all_some [] k h = ap (map some) (ok-injective [] k h)
all_some (none ∷ l) k h = cc
all_some (some t ∷ l) k h =
    let (rest, e, last) = >>=-eq-ok (map_result (or_raise type_error) l) _ h in
    ap (λ z. some t ∷ z) (all_some l rest e) ∙ ap (map some) (ok-injective (t ∷ rest) k last)

names-In :
    (n : Option Text) (l k : List (Option Text))
    → (map_result (or_raise type_error) l >>= λ names. ok (map some (sorted names))) ≡ ok k
    → In n k ↔ In n l
names-In n l k h =
    let (names, e, last) = >>=-eq-ok (map_result (or_raise type_error) l) _ h in
    let same = ok-injective (map some (sorted names)) k last in
    (
      λ i. subst (In n) (sym (all_some l names e)) (
          map-some-Subset n (sorted names) names (λ t. (sorted-In t names).0)
            (subst (In n) (sym same) i)),
      λ i. subst (In n) same (
          map-some-Subset n names (sorted names) (λ t. (sorted-In t names).1)
            (subst (In n) (all_some l names e) i)),
    )

sort_names-In : (n : Option Text) (l k : List (Option Text)) → sort_names l ≡ ok k → In n k ↔ In n l
unfolding sort_names
sort_names-In n [] k h = names-In n [] k h
sort_names-In n (none ∷ []) k h =
    let same = ok-injective (none ∷ []) k h in (subst (In n) (sym same), subst (In n) same)
sort_names-In n (none ∷ m ∷ l) k h = names-In n (none ∷ m ∷ l) k h
sort_names-In n (some t ∷ l) k h = names-In n (some t ∷ l) k h

module _ (d : Dom) where
  -- A domain that the system is the master of, and its name.
  abbrev pub IsMastered : Option Text → d.Element → Type 0
  IsMastered name e =
      (has_child d e (codes "master") ≡ false) × (find_text d e (codes "name") ≡ ok name)

  from_none : {A : Type 0} {name : Option Text} → In name [] ⊎ A → A
  from_none (inl i) = elim i [ ]
  from_none (inr a) = a

  unmastered :
      (s s' : DomainLists) (e : d.Element)
      → read_domain d s e ≡ ok s'
      → has_child d e (codes "master") ≡ true
      → s ≡ s'
  unfolding read_domain
  unmastered s s' e h m = ground arith

  noted :
      (s s' : DomainLists) (e : d.Element)
      → note_domain d s e ≡ ok s'
      → (name : Option Text) × (find_text d e (codes "name") ≡ ok name)
        × (s'.domain_names ≡ s.domain_names ++ (name ∷ []))
        × ((l : List Text) × (s'.domain_notifies ≡ insert_some name l s.domain_notifies))
  unfolding note_domain
  noted s s' e h =
      let (name, e1, h1) = >>=-eq-ok (find_text d e (codes "name")) _ h in
      let (l, e2, h2) = >>=-eq-ok (stripped_texts d e (codes "notify")) _ h1 in
      let (k, e3, h3) = >>=-eq-ok (stripped_texts d e (codes "AXFRallow")) _ h2 in
      let new = sym (ok-injective _ s' h3) in
      (name, e1, ap (λ z. z.domain_names) new, (l, ap (λ z. z.domain_notifies) new))

  mastered :
      (s s' : DomainLists) (e : d.Element)
      → read_domain d s e ≡ ok s'
      → has_child d e (codes "master") ≡ false
      → note_domain d s e ≡ ok s'
  unfolding read_domain
  mastered s s' e h m = ground arith

  read_domain_source :
      (name : Option Text) (s s' : DomainLists) (e : d.Element)
      → read_domain d s e ≡ ok s'
      → In name s'.domain_names
      → In name s.domain_names ⊎ IsMastered name e
  read_domain_source name s s' e h i = elim (Bool-cases (has_child d e (codes "master"))) [
    | inl yes_master ↦
        inl (subst (λ z. In name z.domain_names) (sym (unmastered s s' e h yes_master)) i)
    | inr own ↦
        let (n, is, names, _) = noted s s' e (mastered s s' e h own) in
        elim (In-append name s.domain_names (n ∷ []) (subst (In name) names i)) [
          | inl j ↦ inl j
          | inr (here same) ↦
              inr (own, subst (λ z. find_text d e (codes "name") ≡ ok z) (sym same) is)
          | inr (there j) ↦ elim j [ ]
        ]
  ]

  read_domain_reaches :
      (name : Option Text) (s s' : DomainLists) (e : d.Element)
      → read_domain d s e ≡ ok s'
      → In name s.domain_names ⊎ IsMastered name e
      → In name s'.domain_names
  read_domain_reaches name s s' e h (inl i) = elim (Bool-cases (has_child d e (codes "master"))) [
    | inl yes_master ↦ subst (λ z. In name z.domain_names) (unmastered s s' e h yes_master) i
    | inr own ↦
        let (n, is, names, _) = noted s s' e (mastered s s' e h own) in
        subst (In name) (sym names) (In-append_left name s.domain_names (n ∷ []) i)
  ]
  read_domain_reaches name s s' e h (inr (own, is)) =
      let (n, is', names, _) = noted s s' e (mastered s s' e h own) in
      subst (In name) (sym names)
        (In-append_right name s.domain_names (n ∷ []) (here (ok-injective name n (sym is ∙ is'))))

  -- Once the domains are read, those that are listed are the names of the domains of the file
  -- that the system is the master of.
  pub read_domains-IsMastered :
      (root : d.Element) (r : DomainLists) (name : Option Text)
      → read_domains d root ≡ ok r
      → In name r.domain_names
        ↔ ((e : d.Element) × In e (d.findall root (codes "domain")) × IsMastered name e)
  unfolding read_domains
  read_domains-IsMastered root r name h =
      let l = d.findall root (codes "domain") in
      let (s, run, h1) = >>=-eq-ok (fold_result (read_domain d) no_domains l) _ h in
      let (names, sort, h2) = >>=-eq-ok (sort_names s.domain_names) _ h1 in
      let same = ap (λ z. z.domain_names) (ok-injective _ r h2) in
      let (out, back) = sort_names-In name s.domain_names names sort in
      (
        λ i. from_none (
            fold_source (read_domain d) (λ t. In name t.domain_names) (IsMastered name)
              (read_domain_source name) l no_domains s run (out (subst (In name) (sym same) i))),
        λ m. subst (In name) same (
            back (
              fold_reaches (read_domain d) (λ t. In name t.domain_names) (IsMastered name)
                (read_domain_reaches name) l no_domains s run (inr m))),
      )
