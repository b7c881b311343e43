-- ===== src/Passfiles/Reuse.antt =====
-- When `read_password` keeps a password.
use mathlib.Core.Bool.{true≢false}
use umbrella_linux.Base.{
  ℕ, zero, suc, ◌<◌, ◌≡◌, refl, true, false, [], ◌∷◌, Option, none, some, Text, nat_eq, ℤ, arith,
  In, All, contains, In→contains, ◌≢◌, length, ap, sym, subst, ◌∙◌, ℕ_discrete,
}
use umbrella_linux.Passfiles.{
  PassFile, readline, alphabet, is_fresh, stored_password, random_from, or_generate, read_password,
}

abbrev pub IsDrawn : ℕ → Type 0
IsDrawn c = In c alphabet

-- What `random.choice` promises: an element of a sequence that is not empty.
abbrev pub IsChoice : (ℕ → Text → ℕ) → Type 0
IsChoice choice = (i : ℕ) (s : Text) → s ≢ [] → In (choice i s) s

pub alphabet-ne-nil : alphabet ≢ []
alphabet-ne-nil e = cc

-- A file counts as fresh at a time: its password does not expire, or it is not that old.
abbrev pub IsFresh : ℤ → ℕ → Option PassFile → Type 0
IsFresh lifetime_days now none = Unit
IsFresh lifetime_days now (some f) = is_fresh lifetime_days now f.mtime ≡ true

no_newline : contains alphabet 10 ≡ false
unfolding nat_eq ℕ_discrete
no_newline = refl

drawn-ne-newline : (c : ℕ) → In c alphabet → c ≢ 10
drawn-ne-newline c i e =
    let found = subst (λ x. contains alphabet x ≡ true) e (In→contains alphabet c i) in
    true≢false (sym found ∙ no_newline)

readline-drawn : (s : Text) → All IsDrawn s → readline s ≡ s
unfolding readline
readline-drawn [] h = refl
readline-drawn (c ∷ s) (h, hs) = ground (arith, drawn-ne-newline c h, readline-drawn s hs)

module _ (choice : ℕ → Text → ℕ) where
  pub length-random_from : (i n : ℕ) → length (random_from choice i n) ≡ n
  unfolding random_from
  length-random_from i zero = refl
  length-random_from i (suc n) = ap suc (length-random_from (suc i) n)

  pub random_from-IsDrawn : (i n : ℕ) → IsChoice choice → All IsDrawn (random_from choice i n)
  unfolding random_from
  random_from-IsDrawn i zero h = tt
  random_from-IsDrawn i (suc n) h = (h i alphabet alphabet-ne-nil, random_from-IsDrawn (suc i) n h)

  random_from-ne-nil : (i n : ℕ) → 0 < n → random_from choice i n ≢ []
  unfolding random_from
  random_from-ne-nil i zero h e = omega arith
  random_from-ne-nil i (suc n) h e = cc

-- A stored password that is fresh is the answer.
keeps :
    (choice : ℕ → Text → ℕ) (lifetime_days : ℤ) (n now : ℕ) (f : PassFile) (p : Text)
    → is_fresh lifetime_days now f.mtime ≡ true
    → readline f.content ≡ p
    → p ≢ []
    → read_password choice lifetime_days n now (some f) ≡ record { password = p; file = some f }
unfolding read_password stored_password or_generate
keeps choice lifetime_days n now f [] fresh same ne = absurd (ne refl)
keeps choice lifetime_days n now f (c ∷ s) fresh same ne = rw (fresh, same)

-- The same for the answer of a call, by what that call read.
again :
    (choice later : ℕ → Text → ℕ) (lifetime_days : ℤ) (n m now then_ : ℕ) (f : PassFile) (p : Text)
    → IsChoice choice
    → 0 < n
    → (p ≢ [] → readline f.content ≡ p)
    → IsFresh lifetime_days then_ (or_generate choice now n (some f) p).file
    → read_password later lifetime_days m then_ (or_generate choice now n (some f) p).file
      ≡ or_generate choice now n (some f) p
unfolding or_generate
again choice later lifetime_days n m now then_ f [] drawn some_length same fresh =
    keeps later lifetime_days m then_ _ _ fresh
      (readline-drawn _ (random_from-IsDrawn choice 0 n drawn))
      (random_from-ne-nil choice 0 n some_length)
again choice later lifetime_days n m now then_ f (c ∷ s) drawn some_length same fresh =
    keeps later lifetime_days m then_ f (c ∷ s) fresh (same (λ e. cc)) (λ e. cc)

stored_password-readline :
    (lifetime_days : ℤ) (now : ℕ) (f : PassFile)
    → stored_password lifetime_days now (some f) ≢ []
    → readline f.content ≡ stored_password lifetime_days now (some f)
unfolding stored_password
stored_password-readline lifetime_days now f h = ground arith

-- As long as the file is fresh, a later call gives the password of the call before and leaves
-- the file as it is, whatever it would draw and whatever length it asks for; the call before
-- asked for at least one character, and `random.choice` gave it elements of its argument.
pub read_password_again :
    (choice later : ℕ → Text → ℕ) (lifetime_days : ℤ) (n m now then_ : ℕ) (old : Option PassFile)
    → IsChoice choice
    → 0 < n
    → IsFresh lifetime_days then_ (read_password choice lifetime_days n now old).file
    → read_password later lifetime_days m then_ (read_password choice lifetime_days n now old).file
      ≡ read_password choice lifetime_days n now old
unfolding read_password stored_password or_generate
read_password_again choice later lifetime_days n m now then_ none drawn some_length fresh =
    keeps later lifetime_days m then_ _ _ fresh
      (readline-drawn _ (random_from-IsDrawn choice 0 n drawn))
      (random_from-ne-nil choice 0 n some_length)
read_password_again choice later lifetime_days n m now then_ (some f) drawn some_length fresh =
    again choice later lifetime_days n m now then_ f (stored_password lifetime_days now (some f))
      drawn some_length (stored_password-readline lifetime_days now f) fresh
