-- ===== src/Base/Places.antt =====
-- Members of lists that are built from others, and the places of members.
use mathlib.Core.Path.{◌≡◌, refl, sym, subst, ap, ◌∙◌}
use mathlib.Core.Logic.{inl, inr}
use mathlib.Core.Option.{some}
use mathlib.Core.List.{List, [], ◌∷◌, map, flatten}
use native.Mathlib.Omega.{arith}
use Prim.Native.Nat.{ℕ, zero, suc, ◌<◌}
use umbrella_linux.Base.Equality.{Eq, ==_iff}
use umbrella_linux.Base.Errors.{Result, ok, map_result, after_known}
use umbrella_linux.Base.Lists.{length, get_elem?}
use umbrella_linux.Base.Members.{
  In, In-cons, In-append, here, there, In-append_left, In-append_right,
}
use umbrella_linux.Base.Folds.{ok-injective}
use umbrella_linux.Base.Dict.{Dict, lookup, values, lookup-cons, NodupKeys}

module _ {A : Type 0} where
  -- A member has a place.
  pub In-get_elem? :
      (x : A) (l : List A) → In x l → (i : ℕ) × (i < length l) × (get_elem? l i ≡ some x)
  In-get_elem? x [] h = elim h [ ]
  In-get_elem? x (y ∷ l) (here e) = (0, omega arith, ap some (sym e))
  In-get_elem? x (y ∷ l) (there h) =
      let (i, low, at) = In-get_elem? x l h in (suc i, omega arith, at)

  -- A place below the length has a member.
  pub get_elem?-In :
      (l : List A) (i : ℕ) → i < length l → (x : A) × In x l × (get_elem? l i ≡ some x)
  get_elem?-In [] i h = absurd (omega arith)
  get_elem?-In (y ∷ l) zero h = (y, here refl, refl)
  get_elem?-In (y ∷ l) (suc i) h =
      let (x, j, at) = get_elem?-In l i (omega arith) in (x, there j, at)

  pub In-flatten : (x : A) (l : List A) (ls : List (List A)) → In l ls → In x l → In x (flatten ls)
  unfolding flatten
  In-flatten x l [] h i = elim h [ ]
  In-flatten x l (k ∷ ls) (here e) i = In-append_left x k (flatten ls) (subst (λ z. In x z) e i)
  In-flatten x l (k ∷ ls) (there h) i = In-append_right x k (flatten ls) (In-flatten x l ls h i)

  pub flatten-In :
      (x : A) (ls : List (List A)) → In x (flatten ls) → (l : List A) × In l ls × In x l
  unfolding flatten
  flatten-In x [] h = elim h [ ]
  flatten-In x (l ∷ ls) h = elim (In-append x l (flatten ls) h) [
    | inl i ↦ (l, here refl, i)
    | inr j ↦ let (k, at, i) = flatten-In x ls j in (k, there at, i)
  ]

module _ {A B : Type 0} where
  pub In-map : (f : A → B) (x : A) (l : List A) → In x l → In (f x) (map f l)
  In-map f x [] h = elim h [ ]
  In-map f x (y ∷ l) (here e) = here (ap f e)
  In-map f x (y ∷ l) (there h) = there (In-map f x l h)

  pub map-In : (f : A → B) (y : B) (l : List A) → In y (map f l) → (x : A) × In x l × (y ≡ f x)
  map-In f y [] h = elim h [ ]
  map-In f y (x ∷ l) (here e) = (x, here refl, e)
  map-In f y (x ∷ l) (there h) = let (z, i, e) = map-In f y l h in (z, there i, e)

  -- Each call of a `map` that does not raise has its result in the list.
  pub map_result-In :
      (f : A → Result B) (x : A) (l : List A) (ys : List B)
      → map_result f l ≡ ok ys
      → In x l
      → (y : B) × (f x ≡ ok y) × In y ys
  map_result-In f x [] ys h i = elim i [ ]
  map_result-In f x (z ∷ l) ys h i =
      after_known (f z) _ ys
        (λ y at h1.
          after_known (map_result f l) _ ys
            (λ rest mapped h2.
              let made : y ∷ rest ≡ ys = ok-injective (y ∷ rest) ys h2 in
              let found : (w : B) × (f x ≡ ok w) × In w (y ∷ rest) = elim i [
                | here e ↦ (y, subst (λ v. f v ≡ ok y) (sym e) at, here refl)
                | there j ↦ let (w, is, k) = map_result-In f x l rest mapped j in (w, is, there k)
              ] in
              subst (λ v. (w : B) × (f x ≡ ok w) × In w v) made found)
            h1)
        h

  -- A `map` whose calls do not raise does not raise.
  pub map_result_total :
      (f : A → Result B) (l : List A)
      → ((x : A) → In x l → (y : B) × (f x ≡ ok y))
      → (ys : List B) × (map_result f l ≡ ok ys)
  map_result_total f [] each = ([], refl)
  map_result_total f (x ∷ l) each =
      let (y, at) = each x (here refl) in
      let (ys, rest) = map_result_total f l (λ z i. each z (there i)) in
      (y ∷ ys, rw (at, rest) refl)

  -- Each result in the list is that of a call.
  pub In-map_result :
      (f : A → Result B) (y : B) (l : List A) (ys : List B)
      → map_result f l ≡ ok ys
      → In y ys
      → (x : A) × In x l × (f x ≡ ok y)
  In-map_result f y [] ys h i = elim (subst (λ z. In y z) (sym (ok-injective [] ys h)) i) [ ]
  In-map_result f y (x ∷ l) ys h i =
      after_known (f x) _ ys
        (λ first at h1.
          after_known (map_result f l) _ ys
            (λ rest mapped h2.
              let made : first ∷ rest ≡ ys = ok-injective (first ∷ rest) ys h2 in
              elim (In-cons y first rest (subst (λ z. In y z) (sym made) i)) [
                | inl e ↦ (x, here refl, at ∙ ap ok (sym e))
                | inr j ↦ let (z, k, is) = In-map_result f y l rest mapped j in (z, there k, is)
              ])
            h1)
        h

module _ {K V : Type 0} ⦃e : Eq K⦄ where
  lookup_same : (k j : K) (d : Dict K V) → k ≡ j → lookup k d ≡ lookup j d
  lookup_same k j d q = ap (λ z. lookup z d) q

  -- An entry of a dict is what its key finds.
  pub In-lookup : (k : K) (v : V) (d : Dict K V) → NodupKeys d → In (k, v) d → lookup k d ≡ some v
  In-lookup k v [] u h = elim h [ ]
  In-lookup k v ((j, w) ∷ d) (fresh, u) (here q) =
      let same : k ≡ j = ap (λ z. z.0) q in
      let value : v ≡ w = ap (λ z. z.1) q in ground (arith, lookup-cons k j w d, ==_iff k j)
  In-lookup k v ((j, w) ∷ d) (fresh, u) (there h) =
      ground (arith, lookup-cons k j w d, ==_iff k j, In-lookup k v d u h, lookup_same k j d)

  pub In-values : (k : K) (v : V) (d : Dict K V) → In (k, v) d → In v (values d)
  In-values k v [] h = elim h [ ]
  In-values k v ((j, w) ∷ d) (here q) = here (ap (λ z. z.1) q)
  In-values k v ((j, w) ∷ d) (there h) = there (In-values k v d h)

  pub values-In : (v : V) (d : Dict K V) → In v (values d) → (k : K) × In (k, v) d
  values-In v [] h = elim h [ ]
  values-In v ((j, w) ∷ d) (here q) = (j, here (ap (λ z. (j, z)) q))
  values-In v ((j, w) ∷ d) (there h) = let (k, i) = values-In v d h in (k, there i)
