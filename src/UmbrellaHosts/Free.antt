-- ===== src/UmbrellaHosts/Free.antt =====
-- Cfg/usr/local/bin/umbrella-hosts/umbrella-hosts: which free addresses the script finds.
use umbrella_linux.Base.{
  ℕ, zero, suc, ◌+◌, ◌-◌, ◌≤◌, ◌<◌, ◌≡◌, refl, ◌⊎◌, Bool, true, false, not, List, [], ◌∷◌, ◌++◌,
  inl, inr, leb, contains, length, take, keep, arith, Bool-cases, nat_eq, leb_iff, length-append,
  In, here, there, In-cons, sym, subst, ap, ◌∙◌,
}
use mathlib.Core.List.{append-nil, append_assoc}
use umbrella_linux.Net.{Network, num_addresses}
use umbrella_linux.Net.Each.{count_up, addresses, In-count_up}
use umbrella_linux.UmbrellaHosts.{free_from, get_free_ips}

abbrev pub is_free : List ℕ → ℕ → Bool
is_free taken a = not (contains taken a)

not_yet : (cnt n : ℕ) → n < cnt → leb cnt n ≡ false
not_yet cnt n h = ground (arith, leb_iff cnt n)

take-nil : (n : ℕ) → take {A = ℕ} n [] ≡ []
take-nil zero = refl
take-nil (suc n) = refl

take_one_more :
    (cnt n a : ℕ) (l : List ℕ) → n < cnt → take (cnt - n) (a ∷ l) ≡ a ∷ take (cnt - (n + 1)) l
take_one_more cnt n a l h = let more : cnt - n ≡ suc (cnt - (n + 1)) = omega arith in rw more refl

enough-sub : (cnt n : ℕ) → cnt ≤ n + 1 → cnt - (n + 1) ≡ 0
enough-sub cnt n h = omega arith

leb_after :
    (cnt : ℕ) (found : List ℕ) (a : ℕ)
    → leb cnt (length (found ++ a ∷ [])) ≡ true
    → cnt ≤ length found + 1
leb_after cnt found a h =
    ground (arith, leb_iff cnt (length (found ++ a ∷ [])), length-append found (a ∷ []))

not_after :
    (cnt : ℕ) (found : List ℕ) (a : ℕ)
    → leb cnt (length (found ++ a ∷ [])) ≡ false
    → length (found ++ a ∷ []) < cnt
not_after cnt found a h =
    ground (arith, leb_iff cnt (length (found ++ a ∷ [])), length-append found (a ∷ []))

-- The loop appends the first free addresses until there are enough.
free_from-take :
    (taken : List ℕ) (cnt left a : ℕ) (found : List ℕ)
    → length found < cnt
    → free_from taken cnt left a found
      ≡ found ++ take (cnt - length found) (keep (is_free taken) (count_up left a))
unfolding free_from count_up
free_from-take taken cnt zero a found h =
    let none_left : take {A = ℕ} (cnt - length found) [] ≡ [] = take-nil (cnt - length found) in
    rw (none_left, append-nil) refl
free_from-take taken cnt (suc left) a found h = elim (Bool-cases (contains taken a)) [
  | inl used ↦
      rw (used, not_yet cnt (length found) h) (free_from-take taken cnt left (a + 1) found h)
  | inr free ↦ elim (Bool-cases (leb cnt (length (found ++ a ∷ [])))) [
    | inl enough ↦
        rw (free, enough)
          (ap (λ l. found ++ l)
            (sym (
              take_one_more cnt (length found) a _ h
              ∙ ap (λ k. a ∷ take k (keep (is_free taken) (count_up left (a + 1))))
                  (enough-sub cnt (length found) (leb_after cnt found a enough)))))
    | inr more ↦
        rw (free, more)
          (free_from-take taken cnt left (a + 1) (found ++ a ∷ []) (not_after cnt found a more)
            ∙ append_assoc found (a ∷ []) _
            ∙ ap (λ l. found ++ l)
                (ap (λ k. a ∷ take (cnt - k) (keep (is_free taken) (count_up left (a + 1))))
                    (length-append found (a ∷ []))
                  ∙ sym (take_one_more cnt (length found) a _ h)))
  ]
]

-- The script finds, in ascending order, the first addresses of the network that are not taken: as
-- many as it is asked for, or all of them if there are fewer.
pub get_free_ips-take :
    (taken : List ℕ) (network : Network) (cnt : ℕ)
    → 0 < cnt
    → get_free_ips taken network cnt ≡ take cnt (keep (is_free taken) (addresses network))
unfolding get_free_ips addresses
get_free_ips-take taken network cnt h =
    free_from-take taken cnt (num_addresses network) network.address [] h
    ∙ ap (λ k. take k (keep (is_free taken) (addresses network))) (omega arith)

-- The first number from `a` on that is not taken.
pub first_free :
    (taken : List ℕ) (left a : ℕ)
    → ((keep (is_free taken) (count_up left a) ≡ [])
        × ((y : ℕ) → In y (count_up left a) → contains taken y ≡ true))
      ⊎ ((x : ℕ) × (r : List ℕ) × (keep (is_free taken) (count_up left a) ≡ x ∷ r)
          × In x (count_up left a)
          × (contains taken x ≡ false)
          × ((y : ℕ) → In y (count_up left a) → contains taken y ≡ false → x ≤ y))
unfolding count_up
first_free taken zero a = inl (refl, λ y i. elim i [ ])
first_free taken (suc left) a = elim (Bool-cases (contains taken a)) [
  | inl used ↦ rw used (elim (first_free taken left (a + 1)) [
    | inl (none_left, all) ↦ inl (
      none_left,
      λ y i. elim (In-cons y a _ i) [
        | inl e ↦ subst (λ z. contains taken z ≡ true) (sym e) used
        | inr j ↦ all y j
      ],
    )
    | inr (x, r, first, i, free, least) ↦ inr (
      x,
      r,
      first,
      there i,
      free,
      λ y j unused. elim (In-cons y a _ j) [
        | inl e ↦ absurd (ground (arith, ap (λ z. contains taken z) e))
        | inr k ↦ least y k unused
      ],
    )
  ])
  | inr free ↦ rw free (
      inr (
        a,
        keep (is_free taken) (count_up left (a + 1)),
        refl,
        here refl,
        free,
        λ y i _. ((In-count_up y (suc left) a).0 i).0,
      ))
]
