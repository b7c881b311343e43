-- ===== src/Passfiles/Generated.antt =====
-- What a new password consists of.
use umbrella_linux.Base.{
  ℕ, zero, suc, ◌+◌, ◌≤◌, ◌≡◌, ◌≢◌, ◌↔◌, ◌⊎◌, inl, inr, refl, sym, subst, [], ◌∷◌, ◌++◌, Option,
  none, some, Text, nat_eq, ℤ, arith, In, here, All, contains, contains→In, In→contains, length,
  if◌then◌else◌, Option-cases, Bool-cases, get_elem?, All-In, In-All, there, text_eq, In-append,
  In-append_left, In-append_right,
}
use mathlib.Core.Option.{some-injective}
use umbrella_linux.Net.Each.{count_up, In-count_up}
use umbrella_linux.Passfiles.{
  PassFile, alphabet, stored_password, random_from, or_generate, read_password,
}
use umbrella_linux.Passfiles.Reuse.{IsDrawn, IsChoice, length-random_from, random_from-IsDrawn}

-- A capital letter of ASCII or a digit, by its code.
abbrev pub IsCapitalOrDigit : ℕ → Type 0
IsCapitalOrDigit c = ((65 ≤ c) × (c ≤ 90)) ⊎ ((48 ≤ c) × (c ≤ 57))

alphabet_ranges : alphabet ≡ count_up 26 65 ++ count_up 10 48
unfolding count_up
alphabet_ranges = refl

IsDrawn-IsCapitalOrDigit : (c : ℕ) → IsDrawn c ↔ IsCapitalOrDigit c
IsDrawn-IsCapitalOrDigit c = (
  λ i. elim (In-append c (count_up 26 65) (count_up 10 48) (subst (In c) alphabet_ranges i)) [
    | inl j ↦ (let (low, high) = (In-count_up c 26 65).0 j in inl (low, omega arith))
    | inr j ↦ (let (low, high) = (In-count_up c 10 48).0 j in inr (low, omega arith))
  ],
  λ h. subst (In c) (sym alphabet_ranges) (elim h [
    | inl (low, high) ↦
        In-append_left c (count_up 26 65) (count_up 10 48)
          ((In-count_up c 26 65).1 (low, omega arith))
    | inr (low, high) ↦
        In-append_right c (count_up 26 65) (count_up 10 48)
          ((In-count_up c 10 48).1 (low, omega arith))
  ]),
)

-- The first element, where there is one.
abbrev head_or : Text → ℕ
head_or [] = 0
head_or (c ∷ s) = c

-- Choices that spell a text, as far as it has elements of the sequence.
unfoldable steered : Text → ℕ → Text → ℕ
steered p i s = elim (get_elem? p i) [
  | none ↦ head_or s
  | some c ↦ if contains s c then c else head_or s
]

head_or-In : (s : Text) → s ≢ [] → In (head_or s) s
head_or-In [] ne = absurd (ne refl)
head_or-In (c ∷ s) ne = here refl

steered-IsChoice : (p : Text) → IsChoice (steered p)
unfolding steered
steered-IsChoice p i s ne = elim (Option-cases (get_elem? p i)) [
  | inl missing ↦ rw (missing, steered) (head_or-In s ne)
  | inr (c, at) ↦
      rw (at, steered)
        (elim (Bool-cases (contains s c)) [
          | inl found ↦ rw found (contains→In s c found)
          | inr absent ↦ rw absent (head_or-In s ne)
        ])
]

random_from-spells :
    (choice : ℕ → Text → ℕ) (p : Text) (i : ℕ)
    → ((j c : ℕ) → get_elem? p j ≡ some c → choice (i + j) alphabet ≡ c)
    → random_from choice i (length p) ≡ p
unfolding random_from
random_from-spells choice [] i h = refl
random_from-spells choice (x ∷ p) i h =
    let here_at : i + 0 ≡ i = omega arith in
    let head : choice i alphabet ≡ x = subst (λ k. choice k alphabet ≡ x) here_at (h 0 x refl) in
    let tail = random_from-spells choice p (suc i) (λ j c at.
      let after : i + suc j ≡ suc i + j = omega arith in
      subst (λ k. choice k alphabet ≡ c) after (h (suc j) c at)) in
    rw (head, tail) refl

get_elem?-In : (p : Text) (j c : ℕ) → get_elem? p j ≡ some c → In c p
get_elem?-In [] j c h = absurd (cc)
get_elem?-In (x ∷ p) zero c h = here (sym (some-injective x c h))
get_elem?-In (x ∷ p) (suc j) c h = there (get_elem?-In p j c h)

steered-at :
    (p : Text) (j c : ℕ) → In c alphabet → get_elem? p j ≡ some c → steered p j alphabet ≡ c
unfolding steered
steered-at p j c i at = rw (at, steered) (rw (In→contains alphabet c i) refl)

-- Every text of the alphabet comes out of some choices.
generated_onto : (p : Text) → All IsCapitalOrDigit p → random_from (steered p) 0 (length p) ≡ p
generated_onto p all = random_from-spells (steered p) p 0 (λ j c at.
    let i = get_elem?-In p j c at in
    let at_j : j ≡ 0 + j = omega arith in
    subst (λ k. steered p k alphabet ≡ c) at_j
      (steered-at p j c ((IsDrawn-IsCapitalOrDigit c).1 (All-In IsCapitalOrDigit p all c i)) at))

-- Where there is no file, or an expired or an empty one, and `random.choice` gives elements of its
-- argument, the password has the length asked for and consists of capital letters and digits of ASCII,
-- it is what the file then holds, and each such text of that length is the password for some choices.
pub read_password_generated :
    (choice : ℕ → Text → ℕ) (lifetime_days : ℤ) (n now : ℕ) (old : Option PassFile)
    → IsChoice choice
    → stored_password lifetime_days now old ≡ []
    → (length (read_password choice lifetime_days n now old).password ≡ n)
      × All IsCapitalOrDigit (read_password choice lifetime_days n now old).password
      × ((read_password choice lifetime_days n now old).file
          ≡ some (record {
            content = (read_password choice lifetime_days n now old).password;
            mtime = now;
          }))
      × ((p : Text)
          → All IsCapitalOrDigit p
          → length p ≡ n
          → (other : ℕ → Text → ℕ) × IsChoice other
            × ((read_password other lifetime_days n now old).password ≡ p))
unfolding read_password or_generate
read_password_generated choice lifetime_days n now old chosen h = rw h (
  length-random_from choice 0 n,
  In-All IsCapitalOrDigit (random_from choice 0 n) (λ c i.
      (IsDrawn-IsCapitalOrDigit c).0
        (All-In IsDrawn (random_from choice 0 n) (random_from-IsDrawn choice 0 n chosen) c i)),
  refl,
  λ p all same. (
    steered p,
    steered-IsChoice p,
    subst (λ k. random_from (steered p) 0 k ≡ p) same (generated_onto p all),
  ),
)
