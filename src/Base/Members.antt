-- ===== src/Base/Members.antt =====
-- Membership with the place kept: a value of `In x l` says where `x` stands.
use mathlib.Core.Path.{◌≡◌, refl, sym, subst}
use mathlib.Core.Logic.{◌⊎◌, ◌↔◌, inl, inr}
use mathlib.Core.Bool.{Bool, true, false}
use mathlib.Core.List.{List, [], ◌∷◌, ◌++◌}
use native.Mathlib.Omega.{arith}
use umbrella_linux.Base.Equality.{Bool-cases, Eq, contains, if◌then◌else◌}
use umbrella_linux.Base.Lists.{All, keep}

pub data In {ℓ} {A : Type ℓ} (x : A) : List A → Type ℓ where
  here : {y : A} {l : List A} → x ≡ y → In x (y ∷ l)
  there : {y : A} {l : List A} → In x l → In x (y ∷ l)

module _ {ℓ} {A : Type ℓ} where
  -- No element stands twice, as in a set.
  abbrev pub Distinct : List A → Type ℓ
  Distinct [] = Unit
  Distinct (x ∷ l) = (¬ In x l) × Distinct l

  pub In-cons : (x y : A) (l : List A) → In x (y ∷ l) → (x ≡ y) ⊎ In x l
  In-cons x y l (here e) = inl e
  In-cons x y l (there i) = inr i

  pub In-append_left : (x : A) (l k : List A) → In x l → In x (l ++ k)
  In-append_left x [] k h = elim h [ ]
  In-append_left x (y ∷ l) k (here e) = here e
  In-append_left x (y ∷ l) k (there h) = there (In-append_left x l k h)

  pub In-append_right : (x : A) (l k : List A) → In x k → In x (l ++ k)
  In-append_right x [] k h = h
  In-append_right x (y ∷ l) k h = there (In-append_right x l k h)

  pub In-append : (x : A) (l k : List A) → In x (l ++ k) → In x l ⊎ In x k
  In-append x [] k h = inr h
  In-append x (y ∷ l) k (here e) = inl (here e)
  In-append x (y ∷ l) k (there h) = elim (In-append x l k h) [
    | inl i ↦ inl (there i)
    | inr j ↦ inr j
  ]

  pub In-keep : (p : A → Bool) (x : A) (l : List A) → In x l → p x ≡ true → In x (keep p l)
  In-keep p x [] h t = elim h [ ]
  In-keep p x (y ∷ l) (here e) t = rw (subst (λ z. p z ≡ true) e t) (here e)
  In-keep p x (y ∷ l) (there h) t =
      elim (p y) as (λ b. In x (if b then y ∷ keep p l else keep p l)) [
        | true ↦ there (In-keep p x l h t)
        | false ↦ In-keep p x l h t
      ]

  keep_cons_In :
      (p : A → Bool) (x y : A) (l k : List A) (b : Bool)
      → p y ≡ b
      → (In x k → In x l × (p x ≡ true))
      → In x (if b then y ∷ k else k)
      → In x (y ∷ l) × (p x ≡ true)
  keep_cons_In p x y l k true e ih (here q) = (here q, subst (λ z. p z ≡ true) (sym q) e)
  keep_cons_In p x y l k true e ih (there h) = let (i, t) = ih h in (there i, t)
  keep_cons_In p x y l k false e ih h = let (i, t) = ih h in (there i, t)

  pub keep-In : (p : A → Bool) (x : A) (l : List A) → In x (keep p l) → In x l × (p x ≡ true)
  keep-In p x [] h = elim h [ ]
  keep-In p x (y ∷ l) h = keep_cons_In p x y l (keep p l) (p y) refl (keep-In p x l) h

module _ {ℓ κ} {A : Type ℓ} (P : A → Type κ) where
  pub All-In : (l : List A) → All P l → (x : A) → In x l → P x
  All-In [] h x i = elim i [ ]
  All-In (y ∷ l) (p, h) x (here e) = subst P (sym e) p
  All-In (y ∷ l) (p, h) x (there i) = All-In l h x i

  pub In-All : (l : List A) → ((x : A) → In x l → P x) → All P l
  In-All [] h = tt
  In-All (y ∷ l) h = (h y (here refl), In-All l (λ x i. h x (there i)))

module _ {ℓ} {A : Type ℓ} ⦃e : Eq A⦄ where
  pub contains→In : (l : List A) (x : A) → contains l x ≡ true → In x l
  contains→In [] x h = absurd (cc)
  contains→In (y ∷ l) x h = elim (e.dec x y) [
    | yes p ↦ here p
    | no n ↦ there (contains→In l x (ground arith))
  ]

  pub In→contains : (l : List A) (x : A) → In x l → contains l x ≡ true
  In→contains [] x h = elim h [ ]
  In→contains (y ∷ l) x (here p) = ground arith
  In→contains (y ∷ l) x (there h) = ground (arith, In→contains l x h)

  -- `set.add`
  pub In-added :
      (y x : A) (s : List A) → In y (if contains s x then s else x ∷ s) ↔ (In y s ⊎ (y ≡ x))
  In-added y x s = elim (Bool-cases (contains s x)) [
    | inl old ↦ rw old (
      λ i. inl i,
      λ h. elim h [ inl i ↦ i | inr e ↦ subst (λ z. In z s) (sym e) (contains→In s x old) ],
    )
    | inr new ↦ rw new (
      λ i. elim (In-cons y x s i) [ inl e ↦ inr e | inr j ↦ inl j ],
      λ h. elim h [ inl i ↦ there i | inr e ↦ here e ],
    )
  ]
