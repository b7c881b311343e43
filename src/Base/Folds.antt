-- ===== src/Base/Folds.antt =====
-- Rules for a loop whose body may raise: where a property of the result comes from, what establishes
-- it, and when no round raises.
use mathlib.Core.Path.{◌≡◌, refl, sym, subst, ap}
use mathlib.Core.Logic.{◌⊎◌, inl, inr}
use mathlib.Core.Option.{Option, none, some}
use mathlib.Core.List.{List, [], ◌∷◌}
use native.Mathlib.Omega.{arith}
use umbrella_linux.Base.Errors.{Exc, or_raise, Result, ok, >>=-eq-ok, fold_result}
use umbrella_linux.Base.Members.{In, here, there}

pub ok-injective : {S : Type 0} (a b : S) → ok a ≡ ok b → a ≡ b
ok-injective a b h = ground arith

pub or_raise-some : {A : Type 0} (x : Exc) (o : Option A) (a : A) → or_raise x o ≡ ok a → o ≡ some a
or_raise-some x none a h = absurd (cc)
or_raise-some x (some b) a h = ap some (ok-injective b a h)

after_first :
    {A S : Type 0} (Has : S → Type 0) (P : A → Type 0) {s t : S} {x : A} {l : List A}
    → (Has s ⊎ P x → Has t)
    → Has s ⊎ ((y : A) × In y (x ∷ l) × P y)
    → Has t ⊎ ((y : A) × In y l × P y)
after_first Has P step (inl h) = inl (step (inl h))
after_first Has P step (inr (y, here e, p)) = inl (step (inr (subst P e p)))
after_first Has P step (inr (y, there i, p)) = inr (y, i, p)

module _ {A S : Type 0} (run : S → A → Result S) where
  pub fold_source :
      (Has : S → Type 0) (P : A → Type 0)
      → ((s s' : S) (x : A) → run s x ≡ ok s' → Has s' → Has s ⊎ P x)
      → (l : List A) (s s' : S) → fold_result run s l ≡ ok s'
      → Has s'
      → Has s ⊎ ((x : A) × In x l × P x)
  fold_source Has P step [] s s' e h = inl (subst Has (ok-injective s' s (sym e)) h)
  fold_source Has P step (x ∷ l) s s' e h =
      let (t, first, rest) = >>=-eq-ok (run s x) (λ t. fold_result run t l) e in
      elim (fold_source Has P step l t s' rest h) [
        | inl ht ↦ elim (step s t x first ht) [ inl hs ↦ inl hs | inr p ↦ inr (x, here refl, p) ]
        | inr (y, i, p) ↦ inr (y, there i, p)
      ]

  pub fold_reaches :
      (Has : S → Type 0) (P : A → Type 0)
      → ((s s' : S) (x : A) → run s x ≡ ok s' → Has s ⊎ P x → Has s')
      → (l : List A) (s s' : S) → fold_result run s l ≡ ok s'
      → Has s ⊎ ((x : A) × In x l × P x)
      → Has s'
  fold_reaches Has P step [] s s' e (inl h) = subst Has (ok-injective s s' e) h
  fold_reaches Has P step [] s s' e (inr (x, i, p)) = elim i [ ]
  fold_reaches Has P step (x ∷ l) s s' e h =
      let (t, first, rest) = >>=-eq-ok (run s x) (λ t. fold_result run t l) e in
      fold_reaches Has P step l t s' rest (after_first Has P (step s t x first) h)

  pub fold_total :
      (l : List A)
      → ((s : S) (x : A) → In x l → (s' : S) × (run s x ≡ ok s'))
      → (s : S) → (s' : S) × (fold_result run s l ≡ ok s')
  fold_total [] step s = (s, refl)
  fold_total (x ∷ l) step s =
      let (t, first) = step s x (here refl) in
      let (s', rest) = fold_total l (λ r y i. step r y (there i)) t in (s', rw first rest)

  -- What every round keeps is kept by the loop.
  pub fold_keeps :
      (Inv : S → Type 0)
      → ((s s' : S) (x : A) → run s x ≡ ok s' → Inv s → Inv s')
      → (l : List A) (s s' : S) → fold_result run s l ≡ ok s'
      → Inv s
      → Inv s'
  fold_keeps Inv step [] s s' e h = subst Inv (ok-injective s s' e) h
  fold_keeps Inv step (x ∷ l) s s' e h =
      let (t, first, rest) = >>=-eq-ok (run s x) (λ t. fold_result run t l) e in
      fold_keeps Inv step l t s' rest (step s t x first h)

  -- A loop that does not raise has a round for every element.
  pub fold_visits :
      (l : List A) (s s' : S)
      → fold_result run s l ≡ ok s'
      → (x : A) → In x l
      → (t : S) × (t' : S) × (run t x ≡ ok t')
  fold_visits [] s s' h x i = elim i [ ]
  fold_visits (y ∷ l) s s' h x (here e) =
      let (t, first, _) = >>=-eq-ok (run s y) (λ t. fold_result run t l) h in
      (s, t, subst (λ z. run s z ≡ ok t) (sym e) first)
  fold_visits (y ∷ l) s s' h x (there i) =
      let (t, _, rest) = >>=-eq-ok (run s y) (λ t. fold_result run t l) h in
      fold_visits l t s' rest x i
