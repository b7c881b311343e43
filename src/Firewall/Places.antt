-- ===== src/Firewall/Places.antt =====
-- The numbered addresses, put in the list of servers at their numbers.
use umbrella_linux.Base.{
  ℕ, zero, suc, ◌+◌, ◌<◌, ◌≤◌, ◌≡◌, refl, ◌≢◌, List, [], ◌∷◌, Option, none, some, arith, nat_eq,
  text_eq, length, set, get_elem?, length-set, subst, sym, ap, ◌∙◌, ℕ_discrete,
}
use umbrella_linux.Base.Dict.{Dict, insert, lookup}
use umbrella_linux.Firewall.{place_all}

-- The numbers of the entries are `k` and those that follow, in order.
abbrev pub Counted : ℕ → Dict ℕ ℕ → Type 0
Counted k [] = Unit
Counted k ((a, n) ∷ d) = (n ≡ k) × Counted (suc k) d

pub insert-Counted :
    (k a num : ℕ) (d : Dict ℕ ℕ)
    → num ≡ k + length d
    → Counted k d
    → lookup a d ≡ none
    → Counted k (insert a num d) × (length (insert a num d) ≡ suc (length d))
unfolding insert lookup
insert-Counted k a num [] e h new = ((omega arith, tt), refl)
insert-Counted k a num ((b, n) ∷ d) e (first, h) new =
    ground (arith, insert-Counted (suc k) a num d (omega arith) h)

get_elem?-set :
    {A : Type 0} (l : List A) (i : ℕ) (x : A) → i < length l → get_elem? (set l i x) i ≡ some x
get_elem?-set [] i x h = absurd (omega arith)
get_elem?-set (y ∷ l) zero x h = refl
get_elem?-set (y ∷ l) (suc i) x h = get_elem?-set l i x (omega arith)

get_elem?-set_other :
    {A : Type 0} (l : List A) (i j : ℕ) (x : A) → i ≢ j → get_elem? (set l j x) i ≡ get_elem? l i
get_elem?-set_other [] i j x h = refl
get_elem?-set_other (y ∷ l) zero zero x h = absurd (h refl)
get_elem?-set_other (y ∷ l) zero (suc j) x h = refl
get_elem?-set_other (y ∷ l) (suc i) zero x h = refl
get_elem?-set_other (y ∷ l) (suc i) (suc j) x h = get_elem?-set_other l i j x (λ e. h (ap suc e))

place_all-before :
    (d : Dict ℕ ℕ) (k i : ℕ) (l : List (Option ℕ))
    → Counted k d
    → i < k
    → get_elem? (place_all d l) i ≡ get_elem? l i
unfolding place_all
place_all-before [] k i l h lt = refl
place_all-before ((a, n) ∷ d) k i l (e, h) lt =
    place_all-before d (suc k) i (set l n (some a)) h (omega arith)
    ∙ get_elem?-set_other l i n (some a) (λ q. omega arith)

pub place_all-lookup :
    (d : Dict ℕ ℕ) (k a n : ℕ) (l : List (Option ℕ))
    → Counted k d
    → k + length d ≤ length l
    → lookup a d ≡ some n
    → get_elem? (place_all d l) n ≡ some (some a)
unfolding place_all lookup
place_all-lookup [] k a n l h fits found = cc
place_all-lookup ((b, m) ∷ d) k a n l (e, h) fits found =
    let fits' : suc k + length d ≤ length (set l m (some b)) =
      omega (arith, length-set l m (some b)) in
    let at = place_all-before d (suc k) m (set l m (some b)) h (omega arith) in
    let here' = get_elem?-set l m (some b) (omega arith) in
    ground (arith, place_all-lookup d (suc k) a n (set l m (some b)) h fits')

pub place_all-filled :
    (d : Dict ℕ ℕ) (k n : ℕ) (l : List (Option ℕ))
    → Counted k d
    → k + length d ≤ length l
    → k ≤ n
    → n < k + length d
    → (a : ℕ) × (get_elem? (place_all d l) n ≡ some (some a))
unfolding place_all
place_all-filled [] k n l h fits low high = absurd (omega arith)
place_all-filled ((b, m) ∷ d) k n l (e, h) fits low high =
    let fits' : suc k + length d ≤ length (set l m (some b)) =
      omega (arith, length-set l m (some b)) in
    elim (ℕ_discrete n m) [
      | yes q ↦ (
        b,
        subst (λ i. get_elem? (place_all d (set l m (some b))) i ≡ some (some b)) (sym q)
            (place_all-before d (suc k) m (set l m (some b)) h (omega arith)
              ∙ get_elem?-set l m (some b) (omega arith)),
      )
      | no q ↦ place_all-filled d (suc k) n (set l m (some b)) h fits' (omega arith) (omega arith)
    ]

pub lookup-Counted :
    (d : Dict ℕ ℕ) (k a n : ℕ) → Counted k d → lookup a d ≡ some n → n < k + length d
unfolding lookup
lookup-Counted [] k a n h found = cc
lookup-Counted ((b, m) ∷ d) k a n (e, h) found = ground (arith, lookup-Counted d (suc k) a n h)
