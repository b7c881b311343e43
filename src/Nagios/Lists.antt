-- ===== src/Nagios/Lists.antt =====
-- Documentation/hacks/nagios_map/update_nagios: the list of pings of a set of hosts.
use mathlib.Core.List.{reverse-cons}
use umbrella_linux.Base.{
  ℕ, suc, zero, ◌-◌, ◌≤◌, ◌≡◌, refl, inl, inr, List, [], ◌∷◌, map, reverse, Option, none, some,
  Text, text_eq, length, take, drop, ℤ, pos, negsuc, In, here, there, In-cons, In-append,
  In-append_left, In-append_right, sym, ◌⊎◌, ◌∙◌, ap, subst, arith,
}
use umbrella_linux.Base.Places.{map-In, In-map}
use umbrella_linux.Text.Order.{sorted, sorted-In}
use umbrella_linux.Nagios.{slice_to, ping_list}

take-In : (x : Text) (n : ℕ) (l : List Text) → In x (take n l) → In x l
take-In x zero l i = elim i [ ]
take-In x (suc n) [] i = elim i [ ]
take-In x (suc n) (y ∷ l) (here e) = here e
take-In x (suc n) (y ∷ l) (there i) = there (take-In x n l i)

length-take-le : (n : ℕ) (l : List Text) → length (take n l) ≤ n
length-take-le zero l = omega arith
length-take-le (suc n) [] = omega arith
length-take-le (suc n) (x ∷ l) = omega (arith, length-take-le n l)

length-map : (l : List Text) → length (map (λ x. drop 3 x) l) ≡ length l
length-map [] = refl
length-map (x ∷ l) = ap (λ n. suc n) (length-map l)

reverse-In : (x : Text) (l : List Text) → In x (reverse l) → In x l
reverse-In x [] i = i
reverse-In x (y ∷ l) i =
    elim (In-append x (reverse l) (y ∷ []) (subst (In x) (reverse-cons y l) i)) [
      | inl j ↦ there (reverse-In x l j)
      | inr j ↦ elim (In-cons x y [] j) [ inl e ↦ here e | inr k ↦ elim k [ ] ]
    ]

slice_to-In : (x : Text) (n : ℤ) (l : List Text) → In x (slice_to n l) → In x l
unfolding slice_to
slice_to-In x (pos n) l i = take-In x n l i
slice_to-In x (negsuc n) l i = take-In x (length l - suc n) l i

-- No more than a limit that is there and is not negative.
abbrev pub IsWithin : Option ℤ → ℕ → Type 0
IsWithin none n = Unit
IsWithin (some (pos limit)) n = n ≤ limit
IsWithin (some (negsuc limit)) n = Unit

pub ping_list-IsWithin :
    (limit : Option ℤ) (hosts : List Text) → IsWithin limit (length (ping_list limit hosts))
unfolding ping_list slice_to
ping_list-IsWithin none hosts = tt
ping_list-IsWithin (some (pos n)) hosts =
    omega (
      arith,
      length-map (take n (reverse (sorted hosts))),
      length-take-le n (reverse (sorted hosts)),
    )
ping_list-IsWithin (some (negsuc n)) hosts = tt

pub ping_list-In :
    (limit : Option ℤ) (hosts : List Text) (p : Text)
    → In p (ping_list limit hosts)
    → (x : Text) × In x hosts × (p ≡ drop 3 x)
unfolding ping_list
ping_list-In none hosts p i =
    let (x, j, e) = map-In (λ x. drop 3 x) p (reverse (sorted hosts)) i in
    (x, (sorted-In x hosts).0 (reverse-In x (sorted hosts) j), e)
ping_list-In (some n) hosts p i =
    let (x, j, e) = map-In (λ x. drop 3 x) p (slice_to n (reverse (sorted hosts))) i in
    (
      x,
      (sorted-In x hosts).0
          (reverse-In x (sorted hosts) (slice_to-In x n (reverse (sorted hosts)) j)),
      e,
    )

In-reverse : (x : Text) (l : List Text) → In x l → In x (reverse l)
In-reverse x [] i = i
In-reverse x (y ∷ l) i = subst (In x) (sym (reverse-cons y l)) (elim (In-cons x y l i) [
  | inl e ↦ In-append_right x (reverse l) (y ∷ []) (here e)
  | inr j ↦ In-append_left x (reverse l) (y ∷ []) (In-reverse x l j)
])

take_filled : (n : ℕ) (l : List Text) → (take n l ≡ l) ⊎ (length (take n l) ≡ n)
take_filled zero l = inr refl
take_filled (suc n) [] = inl refl
take_filled (suc n) (x ∷ l) = elim (take_filled n l) [
  | inl e ↦ inl (ap (λ k. x ∷ k) e)
  | inr e ↦ inr (ap (λ k. suc k) e)
]

-- A list has every one of these hosts, without its priority, or it is as long as a limit that is not
-- negative, or the limit is negative.
abbrev pub IsFilled : Option ℤ → (Text → Type 0) → List Text → Type 0
IsFilled limit P pings =
    ((x : Text) → P x → In (drop 3 x) pings)
    ⊎ ((n : ℕ) × (limit ≡ some (pos n)) × (length pings ≡ n))
    ⊎ ((n : ℕ) × (limit ≡ some (negsuc n)))

In-shown :
    (x : Text) (hosts : List Text)
    → In x hosts
    → In (drop 3 x) (map (λ y. drop 3 y) (reverse (sorted hosts)))
In-shown x hosts i =
    In-map (λ y. drop 3 y) x (reverse (sorted hosts))
      (In-reverse x (sorted hosts) ((sorted-In x hosts).1 i))

pub ping_list-IsFilled :
    (limit : Option ℤ) (hosts : List Text)
    → IsFilled limit (λ x. In x hosts) (ping_list limit hosts)
unfolding ping_list slice_to
ping_list-IsFilled none hosts = inl (λ x i. In-shown x hosts i)
ping_list-IsFilled (some (negsuc n)) hosts = inr (inr (n, refl))
ping_list-IsFilled (some (pos n)) hosts = elim (take_filled n (reverse (sorted hosts))) [
  | inl all ↦
      inl (λ x i. subst (λ l. In (drop 3 x) (map (λ y. drop 3 y) l)) (sym all) (In-shown x hosts i))
  | inr full ↦ inr (inl (n, refl, length-map (take n (reverse (sorted hosts))) ∙ full))
]
