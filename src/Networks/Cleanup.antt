-- ===== src/Networks/Cleanup.antt =====
-- What `cleanup_fully_contained` keeps, and what it drops.
use umbrella_linux.Base.{
  ◌≡◌, ◌≢◌, refl, sym, ◌∙◌, subst, Bool, true, false, List, [], ◌∷◌, ◌++◌, ◌⊎◌, inl, inr, In, here,
  there, Distinct, In-append_left, In-append_right, In-append, if◌then◌else◌,
}
use umbrella_linux.Net.{Network, network_eq}
use umbrella_linux.Networks.{is_subnet_of, contained_pair, contained_with, contained_nets}

-- A pair adds its first network if that lies in the second, and its second if it lies in the first.
contained_pair-In :
    (a b x : Network)
    → In x (contained_pair a b)
    → ((x ≡ a) × (is_subnet_of a b ≡ true)) ⊎ ((x ≡ b) × (is_subnet_of b a ≡ true))
unfolding contained_pair
contained_pair-In a b x h = go (is_subnet_of a b) (is_subnet_of b a) refl refl h
  where
    go :
        (p q : Bool)
        → is_subnet_of a b ≡ p
        → is_subnet_of b a ≡ q
        → In x ((if p then a ∷ [] else []) ++ (if q then b ∷ [] else []))
        → ((x ≡ a) × (is_subnet_of a b ≡ true)) ⊎ ((x ≡ b) × (is_subnet_of b a ≡ true))
    go true q e f (here i) = inl (i, e)
    go true true e f (there (here i)) = inr (i, f)
    go true true e f (there (there i)) = elim i [ ]
    go true false e f (there i) = elim i [ ]
    go false true e f (here i) = inr (i, f)
    go false true e f (there i) = elim i [ ]
    go false false e f i = elim i [ ]

In-contained_pair_first : (a b : Network) → is_subnet_of a b ≡ true → In a (contained_pair a b)
unfolding contained_pair
In-contained_pair_first a b h = rw h (here refl)

In-contained_pair_second : (a b : Network) → is_subnet_of b a ≡ true → In b (contained_pair a b)
unfolding contained_pair
In-contained_pair_second a b h =
    rw h (In-append_right b (if is_subnet_of a b then a ∷ [] else []) (b ∷ []) (here refl))

-- The other network of the pair that a network was found in.
abbrev pub Outer : Network → List Network → Type 0
Outer x nets = (m : Network) × In m nets × (x ≢ m) × (is_subnet_of x m ≡ true)

-- `a` itself is found in a network behind it, or a network behind it is found in `a`.
contained_with-In :
    (a x : Network) (nets : List Network)
    → In x (contained_with a nets)
    → ((x ≡ a) × ((m : Network) × In m nets × (is_subnet_of a m ≡ true)))
      ⊎ (In x nets × (is_subnet_of x a ≡ true))
unfolding contained_with
contained_with-In a x [] h = elim h [ ]
contained_with-In a x (b ∷ nets) h =
    elim (In-append x (contained_pair a b) (contained_with a nets) h) [
      | inl i ↦ elim (contained_pair-In a b x i) [
        | inl (e, s) ↦ inl (e, (b, here refl, s))
        | inr (e, s) ↦ inr (here e, subst (λ y. is_subnet_of y a ≡ true) (sym e) s)
      ]
      | inr j ↦ elim (contained_with-In a x nets j) [
        | inl (e, (m, i, s)) ↦ inl (e, (m, there i, s))
        | inr (i, s) ↦ inr (there i, s)
      ]
    ]

-- Each network of `nets_contained` lies in another network of the set.
pub contained_nets-In :
    (nets : List Network) (x : Network) → Distinct nets → In x (contained_nets nets) → Outer x nets
unfolding contained_nets
contained_nets-In [] x u h = elim h [ ]
contained_nets-In (a ∷ nets) x (fresh, u) h =
    elim (In-append x (contained_with a nets) (contained_nets nets) h) [
      | inl i ↦ elim (contained_with-In a x nets i) [
        | inl (e, (m, j, s)) ↦ (
          m,
          there j,
          λ q. fresh (subst (λ y. In y nets) (sym q ∙ e) j),
          subst (λ y. is_subnet_of y m ≡ true) (sym e) s,
        )
        | inr (j, s) ↦ (a, here refl, λ q. fresh (subst (λ y. In y nets) q j), s)
      ]
      | inr i ↦ let (m, j, differ, s) = contained_nets-In nets x u i in (m, there j, differ, s)
    ]

In-contained_with_first :
    (a b : Network) (nets : List Network)
    → In b nets
    → is_subnet_of a b ≡ true
    → In a (contained_with a nets)
unfolding contained_with
In-contained_with_first a b [] i s = elim i [ ]
In-contained_with_first a b (c ∷ nets) (here e) s =
    In-append_left a (contained_pair a c) (contained_with a nets)
      (In-contained_pair_first a c (subst (λ y. is_subnet_of a y ≡ true) e s))
In-contained_with_first a b (c ∷ nets) (there i) s =
    In-append_right a (contained_pair a c) (contained_with a nets)
      (In-contained_with_first a b nets i s)

In-contained_with_second :
    (a b : Network) (nets : List Network)
    → In b nets
    → is_subnet_of b a ≡ true
    → In b (contained_with a nets)
unfolding contained_with
In-contained_with_second a b [] i s = elim i [ ]
In-contained_with_second a b (c ∷ nets) (here e) s =
    In-append_left b (contained_pair a c) (contained_with a nets) (
      subst (λ y. In y (contained_pair a c)) (sym e)
        (In-contained_pair_second a c (subst (λ y. is_subnet_of y a ≡ true) e s)))
In-contained_with_second a b (c ∷ nets) (there i) s =
    In-append_right b (contained_pair a c) (contained_with a nets)
      (In-contained_with_second a b nets i s)

-- Each network that lies in another one of the set is in `nets_contained`.
pub In-contained_nets :
    (nets : List Network) (x m : Network)
    → In x nets
    → In m nets
    → x ≢ m
    → is_subnet_of x m ≡ true
    → In x (contained_nets nets)
unfolding contained_nets
In-contained_nets [] x m i j differ s = elim i [ ]
In-contained_nets (a ∷ nets) x m (here e) (here f) differ s = absurd (differ (e ∙ sym f))
In-contained_nets (a ∷ nets) x m (here e) (there j) differ s =
    In-append_left x (contained_with a nets) (contained_nets nets) (
      subst (λ y. In y (contained_with a nets)) (sym e)
        (In-contained_with_first a m nets j (subst (λ y. is_subnet_of y m ≡ true) e s)))
In-contained_nets (a ∷ nets) x m (there i) (here f) differ s =
    In-append_left x (contained_with a nets) (contained_nets nets)
      (In-contained_with_second a x nets i (subst (λ y. is_subnet_of x y ≡ true) f s))
In-contained_nets (a ∷ nets) x m (there i) (there j) differ s =
    In-append_right x (contained_with a nets) (contained_nets nets)
      (In-contained_nets nets x m i j differ s)
