-- ===== src/Tags/Walk.antt =====
-- Which unit `accumulate_tags` finds, and which tags it returns.
use umbrella_linux.Base.{
  ℕ, zero, suc, ◌<◌, ◌≡◌, refl, sym, ap, subst, Bool, true, false, List, [], ◌∷◌, ◌++◌, Option,
  Text, Result, ok, ◌>>=◌, >>=-eq-ok, arith, In, here, there, inl, inr, All-In, ok-injective,
  Bool-cases,
}
use umbrella_linux.Text.{codes}
use umbrella_linux.Xml.{Dom, IsTree, child_text}
use umbrella_linux.Organization.{subunits, unit_network}
use umbrella_linux.Organization.Chains.{Chain, stop, down}
use umbrella_linux.Tags.{Tags, matches, own_tag, first_match, accumulate_tags}

module _ (d : Dom) (ip : Option ℕ) (name : Text) where
  -- Whether a unit's own network has the address.
  abbrev pub Tests : d.Element → Bool → Type 0
  Tests e b = (unit_network d e >>= matches ip) ≡ ok b

  -- `Outermost e l`: the units of `l` lead from `e` down to a unit whose network has the address, and
  -- none above that unit does.
  pub data Outermost : d.Element → List d.Element → Type 0 where
    match : {e : d.Element} → Tests e true → Outermost e (e ∷ [])
    pass :
        {e s : d.Element} {l : List d.Element}
        → Tests e false
        → In s (subunits d e)
        → Outermost s l
        → Outermost e (e ∷ l)

  -- The tags on the way, from the innermost unit to the outermost.
  abbrev pub tags_on : List d.Element → List Text
  tags_on [] = []
  tags_on (e ∷ l) = tags_on l ++ own_tag (child_text d e name)

  -- No unit at or below `e` has the address.
  abbrev pub NoMatch : d.Element → Type 0
  NoMatch e = (l : List d.Element) (u : d.Element) → Chain d e l u → Tests u false

  -- What a result says of the tree.
  abbrev pub Means : d.Element → Tags → Type 0
  Means e (vals, true) = (l : List d.Element) × Outermost e l × (vals ≡ tags_on l)
  Means e (vals, false) = (vals ≡ []) × NoMatch e

  -- What the result of the loop says of the units that it ran over.
  abbrev MeansLoop : d.Element → List d.Element → Tags → Type 0
  MeansLoop e units (vals, true) =
      (s : d.Element) × (l : List d.Element) × In s units
      × Outermost s l
      × (vals ≡ tags_on l ++ own_tag (child_text d e name))
  MeansLoop e units (vals, false) = (vals ≡ []) × ((s : d.Element) → In s units → NoMatch s)

  NoMatch-cons :
      (s : d.Element) (units : List d.Element)
      → NoMatch s
      → ((x : d.Element) → In x units → NoMatch x)
      → (x : d.Element) → In x (s ∷ units)
      → NoMatch x
  NoMatch-cons s units first rest x (here e) = subst NoMatch (sym e) first
  NoMatch-cons s units first rest x (there i) = rest x i

  MeansLoop-cons :
      (e s : d.Element) (units : List d.Element) (r : Tags)
      → NoMatch s
      → MeansLoop e units r
      → MeansLoop e (s ∷ units) r
  MeansLoop-cons e s units (vals, true) first (x, l, i, o, q) = (x, l, there i, o, q)
  MeansLoop-cons e s units (vals, false) first (q, rest) = (q, NoMatch-cons s units first rest)

  loop_step :
      (walk : d.Element → Result Tags) (e s : d.Element) (units : List d.Element) (first r : Tags)
      → Means s first
      → (elim first.1 [
        | true ↦ ok (first.0 ++ own_tag (child_text d e name), true)
        | false ↦ first_match d ip name walk (child_text d e name) units
      ])
        ≡ ok r
      → (first_match d ip name walk (child_text d e name) units ≡ ok r → MeansLoop e units r)
      → MeansLoop e (s ∷ units) r
  loop_step walk e s units (vals, true) r (l, o, q) h ih =
      subst (MeansLoop e (s ∷ units)) (ok-injective _ r h)
        (s, l, here refl, o, ap (λ v. v ++ own_tag (child_text d e name)) q)
  loop_step walk e s units (vals, false) r (q, none_here) h ih =
      MeansLoop-cons e s units r none_here (ih h)

  loop-Means :
      (walk : d.Element → Result Tags)
      → ((s : d.Element) (r : Tags) → walk s ≡ ok r → Means s r)
      → (e : d.Element) (units : List d.Element) (r : Tags)
      → first_match d ip name walk (child_text d e name) units ≡ ok r
      → MeansLoop e units r
  unfolding first_match
  loop-Means walk step e [] r h =
      subst (MeansLoop e []) (ok-injective ([], false) r h) (refl, λ s i. elim i [ ])
  loop-Means walk step e (s ∷ units) r h =
      let (first, run, rest) = >>=-eq-ok (walk s) _ h in
      loop_step walk e s units first r (step s first run) rest (loop-Means walk step e units r)

  NoMatch-below :
      (e : d.Element)
      → Tests e false
      → ((s : d.Element) → In s (subunits d e) → NoMatch s)
      → (l : List d.Element) (u : d.Element) → Chain d e l u
      → Tests u false
  NoMatch-below e t below l u (stop _) = t
  NoMatch-below e t below l u (down {s = s} {l = l'} i c) = below s i l' u c

  Means-of_loop :
      (e : d.Element) (r : Tags) → Tests e false → MeansLoop e (subunits d e) r → Means e r
  Means-of_loop e (vals, true) t (s, l, i, o, q) = (e ∷ l, pass t i o, q)
  Means-of_loop e (vals, false) t (q, below) = (q, NoMatch-below e t below)

  Means-of_test :
      (limit : ℕ) (e : d.Element) (b : Bool) (r : Tags)
      → Tests e b
      → (elim b [
        | true ↦ ok (own_tag (child_text d e name), true)
        | false ↦
            first_match d ip name
              (accumulate_tags d ip name limit)
              (child_text d e name)
              (subunits d e)
      ])
        ≡ ok r
      → ((s : d.Element) (r' : Tags) → accumulate_tags d ip name limit s ≡ ok r' → Means s r')
      → Means e r
  Means-of_test limit e true r t h step =
      subst (Means e) (ok-injective _ r h) (e ∷ [], match t, refl)
  Means-of_test limit e false r t h step =
      Means-of_loop e r t (loop-Means (accumulate_tags d ip name limit) step e (subunits d e) r h)

  -- A result with True comes from the first unit on its way down whose network has the address, and
  -- has the tags of that way, innermost first; a result with False is empty, and no unit matches.
  pub accumulate_tags-Means :
      (limit : ℕ) (e : d.Element) (r : Tags) → accumulate_tags d ip name limit e ≡ ok r → Means e r
  unfolding accumulate_tags
  accumulate_tags-Means zero e r h = absurd (cc)
  accumulate_tags-Means (suc limit) e r h =
      let (network, read, h1) = >>=-eq-ok (unit_network d e) _ h in
      let (b, test, h2) = >>=-eq-ok (matches ip network) _ h1 in
      Means-of_test limit e b r (rw read test) h2 (λ s r' run. accumulate_tags-Means limit s r' run)

  -- Every unit can be tested: its network can be read, and there is an address if it has one.
  abbrev pub Testable : d.Element → Type 0
  Testable e = (l : List d.Element) (u : d.Element) → Chain d e l u → (b : Bool) × Tests u b

  loop_total :
      (walk : d.Element → Result Tags) (val : Option Text) (units : List d.Element)
      → ((s : d.Element) → In s units → (r : Tags) × (walk s ≡ ok r))
      → (r : Tags) × (first_match d ip name walk val units ≡ ok r)
  unfolding first_match
  loop_total walk val [] step = (([], false), refl)
  loop_total walk val (s ∷ units) step =
      let (first, run) = step s (here refl) in
      let (r, rest) = loop_total walk val units (λ x i. step x (there i)) in go first run r rest
    where
      go :
          (first : Tags)
          → walk s ≡ ok first
          → (r : Tags) → first_match d ip name walk val units ≡ ok r
          → (r' : Tags) × (first_match d ip name walk val (s ∷ units) ≡ ok r')
      go (vals, true) run r rest = ((vals ++ own_tag val, true), rw run)
      go (vals, false) run r rest = (r, rw run rest)

  -- On a tree that is not deeper than the recursion limit and in which every unit can be tested
  -- the walk ends without an error.
  pub accumulate_tags_total :
      (t : IsTree d) (limit : ℕ) (e : d.Element)
      → t.height e < limit
      → Testable e
      → (r : Tags) × (accumulate_tags d ip name limit e ≡ ok r)
  unfolding accumulate_tags
  accumulate_tags_total t zero e h test = absurd (omega arith)
  accumulate_tags_total t (suc limit) e h test =
      let (b, own) = test (e ∷ []) e (stop e) in
      let (network, read, found) = >>=-eq-ok (unit_network d e) (matches ip) own in
      let below =
        loop_total (accumulate_tags d ip name limit) (child_text d e name) (subunits d e) (λ s i.
          accumulate_tags_total t limit s
            (omega (
              arith,
              All-In (λ x. t.height x < t.height e) (subunits d e) (t.findall_lower e (codes "ou"))
                  s i,
            ))
            (λ l u c. test (e ∷ l) u (down i c))) in
      elim (Bool-cases b) [
        | inl y ↦ ((own_tag (child_text d e name), true), rw (read, found, y))
        | inr n ↦ (below.0, rw (read, found, n) below.1)
      ]
