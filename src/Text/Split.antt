-- ===== src/Text/Split.antt =====
-- `str.split` by one character and `str.join` with one.
use umbrella_linux.Base.{
  ℕ, ◌≡◌, ◌≢◌, refl, List, [], ◌∷◌, ◌++◌, arith, Text, ◌==◌, nat_eq, if◌then◌else◌, All, All-append,
  true, false, Bool-cases, ==_iff, subst, sym, inl, inr,
}
use mathlib.Core.List.{append_assoc}

abbrev pub Lacks : ℕ → Text → Type 0
Lacks sep = All (λ c. c ≢ sep)

-- A character in front of the first part.
push : ℕ → List Text → List Text
push c [] = (c ∷ []) ∷ []
push c (p ∷ ps) = (c ∷ p) ∷ ps

unfoldable pub split : ℕ → Text → List Text
unfolding push
split sep [] = [] ∷ []
split sep (c ∷ s) = let rest = split sep s in if c == sep then [] ∷ rest else push c rest

unfoldable pub join : ℕ → List Text → Text
join sep [] = []
join sep (p ∷ []) = p
join sep (p ∷ q ∷ ps) = p ++ (sep ∷ join sep (q ∷ ps))

module _ (sep : ℕ) where
  push-ne-nil : (c : ℕ) (ps : List Text) → push c ps ≢ []
  unfolding push
  push-ne-nil c [] h = cc
  push-ne-nil c (p ∷ ps) h = cc

  join-nil_cons : (ps : List Text) → ps ≢ [] → join sep ([] ∷ ps) ≡ sep ∷ join sep ps
  unfolding join
  join-nil_cons [] h = absurd (h refl)
  join-nil_cons (p ∷ ps) h = refl

  pub split-ne-nil : (s : Text) → split sep s ≢ []
  unfolding split
  split-ne-nil [] h = cc
  split-ne-nil (c ∷ s) h = ground (arith, push-ne-nil c (split sep s))

  join-push : (c : ℕ) (ps : List Text) → join sep (push c ps) ≡ c ∷ join sep ps
  unfolding join push
  join-push c [] = refl
  join-push c (p ∷ []) = refl
  join-push c (p ∷ q ∷ ps) = refl

  -- Joining the parts of a split gives the text back.
  pub join-split : (s : Text) → join sep (split sep s) ≡ s
  unfolding split
  join-split [] = unfold join in refl
  join-split (c ∷ s) =
      ground (
        arith,
        join-nil_cons (split sep s) (split-ne-nil s),
        join-push c (split sep s),
        join-split s,
      )

  pub split_of_Lacks : (p : Text) → Lacks sep p → split sep p ≡ p ∷ []
  unfolding split
  split_of_Lacks [] h = refl
  split_of_Lacks (c ∷ p) (hc, hp) = ground (arith, split_of_Lacks p hp)

  pub split-append :
      (p rest : Text) → Lacks sep p → split sep (p ++ (sep ∷ rest)) ≡ p ∷ split sep rest
  unfolding split
  split-append [] rest h = ground arith
  split-append (c ∷ p) rest (hc, hp) = ground (arith, split-append p rest hp)

  -- Splitting a join gives the parts back, if there is a part and none holds the separator.
  pub split-join : (ps : List Text) → ps ≢ [] → All (Lacks sep) ps → split sep (join sep ps) ≡ ps
  unfolding join
  split-join [] h _ = absurd (h refl)
  split-join (p ∷ []) _ (hp, _) = split_of_Lacks p hp
  split-join (p ∷ q ∷ ps) _ (hp, hs) =
      ground (arith, split-append p (join sep (q ∷ ps)) hp, split-join (q ∷ ps) (cc) hs)

  pub join-append :
      (ps qs : List Text)
      → ps ≢ []
      → qs ≢ []
      → join sep (ps ++ qs) ≡ join sep ps ++ (sep ∷ join sep qs)
  unfolding join
  join-append [] qs h _ = absurd (h refl)
  join-append (p ∷ []) [] _ h = absurd (h refl)
  join-append (p ∷ []) (q ∷ qs) _ _ = refl
  join-append (p ∷ r ∷ ps) qs _ h = simp (join-append (r ∷ ps) qs (cc) h, append_assoc)

-- A join lacks what its separator and its parts lack.
pub join-Lacks : (sep c : ℕ) → sep ≢ c → (ps : List Text) → All (Lacks c) ps → Lacks c (join sep ps)
unfolding join
join-Lacks sep c h [] _ = tt
join-Lacks sep c h (p ∷ []) (hp, _) = hp
join-Lacks sep c h (p ∷ q ∷ ps) (hp, hs) =
    All-append (λ x. x ≢ c) p (sep ∷ join sep (q ∷ ps)) hp (h, join-Lacks sep c h (q ∷ ps) hs)

push-Lacks : (c x : ℕ) (ps : List Text) → x ≢ c → All (Lacks c) ps → All (Lacks c) (push x ps)
unfolding push
push-Lacks c x [] h _ = ((h, tt), tt)
push-Lacks c x (p ∷ ps) h (hp, hps) = ((h, hp), hps)

-- The parts of a split have only characters of the text.
pub split-Lacks : (sep c : ℕ) (s : Text) → Lacks c s → All (Lacks c) (split sep s)
unfolding split
split-Lacks sep c [] h = (tt, tt)
split-Lacks sep c (x ∷ s) (h, hs) =
    elim (x == sep) as (λ b. All (Lacks c) (if b then [] ∷ split sep s else push x (split sep s))) [
      | true ↦ (tt, split-Lacks sep c s hs)
      | false ↦ push-Lacks c x (split sep s) h (split-Lacks sep c s hs)
    ]

-- The parts of a split have no separator.
pub parts-Lacks : (sep : ℕ) (s : Text) → All (Lacks sep) (split sep s)
unfolding split
parts-Lacks sep [] = (tt, tt)
parts-Lacks sep (x ∷ s) = elim (Bool-cases (x == sep)) [
  | inl same ↦
      subst (λ b. All (Lacks sep) (if b then [] ∷ split sep s else push x (split sep s))) (sym same)
        (tt, parts-Lacks sep s)
  | inr other ↦
      subst (λ b. All (Lacks sep) (if b then [] ∷ split sep s else push x (split sep s)))
        (sym other)
        (push-Lacks sep x (split sep s) (λ e. ground (arith, ==_iff x sep)) (parts-Lacks sep s))
]
