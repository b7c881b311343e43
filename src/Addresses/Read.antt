-- ===== src/Addresses/Read.antt =====
-- Python/30_networking.py: what a loop over the interface types that fills a dict leaves in it.
use umbrella_linux.Base.{
  ℕ, ◌≡◌, refl, ◌⊎◌, inl, inr, ◌↔◌, List, [], Option, none, some, Text, text_eq, Result, ok,
  fold_result, fold_source, fold_reaches, In, >>=-eq-ok, ok-injective, sym, subst, arith, ==_iff,
}
use umbrella_linux.Base.Dict.{insert_source, Dict, insert, lookup, lookup-insert, lookup-nil}
use umbrella_linux.Net.{ip_address}
use umbrella_linux.Addresses.{note_address, note_text}

-- An address text that is there and its address.
abbrev pub Gives : Option Text → ℕ → Type 0
Gives o v = (x : Text) × (o ≡ some x) × (ip_address x ≡ ok v)

module _ {V : Type 0} (t i : Text) (a v : V) (d : Dict Text V) where
  insert_keeps :
      (lookup t d ≡ some v) ⊎ (t ≡ i) → (t ≡ i → a ≡ v) → lookup t (insert i a d) ≡ some v
  insert_keeps old new = elim (text_eq.dec t i) [
    | yes e ↦ ground (arith, ==_iff t i, lookup-insert t i a d, new e)
    | no e ↦ elim old [
      | inl h ↦ ground (arith, ==_iff t i, lookup-insert t i a d)
      | inr same ↦ absurd (e same)
    ]
  ]

-- What a round may do with a dict: leave it as it is where there is nothing to note, or note a value.
abbrev pub Round : {V : Type 0} → (V → Type 0) → Text → Dict Text V → Dict Text V → Type 0
Round {V} P i d d' = ((d ≡ d') × ((v : V) → P v → ⊥)) ⊎ ((a : V) × P a × (insert i a d ≡ d'))

pub note_address-Round :
    (i : Text) (o : Option Text) (d d' : Dict Text ℕ)
    → note_address i o d ≡ ok d'
    → Round (Gives o) i d d'
unfolding note_address
note_address-Round i none d d' h = inl (ok-injective d d' h, λ v g. cc (g.1))
note_address-Round i (some x) d d' h =
    let (a, is, rest) = >>=-eq-ok (ip_address x) _ h in
    inr (a, (x, refl, is), ok-injective _ d' rest)

-- A text that gives no address is no text, where the round does not raise.
pub nothing_given :
    (i : Text) (o : Option Text) (d d' : Dict Text ℕ)
    → note_address i o d ≡ ok d'
    → ((v : ℕ) → Gives o v → ⊥)
    → o ≡ none
unfolding note_address
nothing_given i none d d' h never = refl
nothing_given i (some x) d d' h never =
    let (a, is, _) = >>=-eq-ok (ip_address x) _ h in absurd (never a (x, refl, is))

pub note_text-Round :
    (i : Text) (o : Option Text) (d : Dict Text Text)
    → Round (λ x. o ≡ some x) i d (note_text i o d)
unfolding note_text
note_text-Round i none d = inl (refl, λ v g. cc)
note_text-Round i (some x) d = inr (x, refl, refl)

pub Gives-unique : (o : Option Text) (v w : ℕ) → Gives o v → Gives o w → v ≡ w
Gives-unique o v w (x, e, h) (y, f, k) = ground arith

-- A loop of which each round may note a value for an interface type in a dict of the state.
module _ {S V : Type 0} (run : S → Text → Result S) (part : S → Dict Text V) (P : Text → V → Type 0)
    (round : (s s' : S) (i : Text) → run s i ≡ ok s' → Round (P i) i (part s) (part s'))
    (unique : (t : Text) (v w : V) → P t v → P t w → v ≡ w) where
  step_source :
      (t : Text) (v : V) (s s' : S) (i : Text)
      → run s i ≡ ok s'
      → lookup t (part s') ≡ some v
      → (lookup t (part s) ≡ some v) ⊎ ((t ≡ i) × P t v)
  step_source t v s s' i h at_t = elim (round s s' i h) [
    | inl (same, _) ↦ inl (rw same at_t)
    | inr (a, p, new) ↦ elim (insert_source t i a v (part s) (rw new at_t)) [
      | inl old ↦ inl old
      | inr (e, f) ↦ inr (e, subst (λ j. P j v) (sym e) (subst (P i) f p))
    ]
  ]

  step_reaches :
      (t : Text) (v : V)
      → P t v
      → (s s' : S) (i : Text) → run s i ≡ ok s'
      → (lookup t (part s) ≡ some v) ⊎ (t ≡ i)
      → lookup t (part s') ≡ some v
  step_reaches t v p s s' i h old = elim (round s s' i h) [
    | inl (same, nothing) ↦ elim old [
      | inl o ↦ rw (← same) o
      | inr e ↦ absurd (nothing v (subst (λ j. P j v) e p))
    ]
    | inr (a, q, new) ↦
        rw (← new)
          (insert_keeps t i a v (part s) old (λ e. unique i a v q (subst (λ j. P j v) e p)))
  ]

  pub noted_iff :
      (l : List Text) (s s' : S)
      → part s ≡ []
      → fold_result run s l ≡ ok s'
      → (t : Text) (v : V) → (lookup t (part s') ≡ some v) ↔ (In t l × P t v)
  noted_iff l s s' empty h t v = (
    λ at_t.
        elim (fold_source run (λ z. lookup t (part z) ≡ some v) (λ i. (t ≡ i) × P t v)
          (step_source t v) l s s' h at_t) [
            | inl old ↦ absurd (cc (lookup-nil t))
            | inr (i, at_i, (e, p)) ↦ (subst (λ j. In j l) (sym e) at_i, p)
          ],
    λ g.
        fold_reaches run (λ z. lookup t (part z) ≡ some v) (λ i. t ≡ i) (step_reaches t v (g.1)) l s
          s' h (inr (t, g.0, refl)),
  )
