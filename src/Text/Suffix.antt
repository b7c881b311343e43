-- ===== src/Text/Suffix.antt =====
-- The ends of texts: `endswith`, a slice that cuts the end off, the digits at the end, and what stands
-- behind the last separator.
use mathlib.Core.List.{reverse-append, reverse-reverse, append_assoc}
use umbrella_linux.Base.{
  ℕ, ◌≡◌, refl, sym, ap, ◌∙◌, Bool, true, false, List, [], ◌∷◌, ◌++◌, reverse, Text, length,
  length-append, drop, if◌then◌else◌, arith,
}
use umbrella_linux.Text.{is_digit, all_digits, split, starts_with}

-- `s.endswith(t)`
unfoldable pub ends_with : Text → Text → Bool
unfolding starts_with
ends_with s t = starts_with (reverse s) (reverse t)

-- `s[:-len(t)]`, for a text `t` that is not empty.
unfoldable pub drop_suffix : Text → Text → Text
drop_suffix s t = reverse (drop (length t) (reverse s))

leading_digits : Text → Text
leading_digits [] = []
leading_digits (c ∷ s) = let rest = leading_digits s in if is_digit c then c ∷ rest else []

-- `s[len(s.rstrip('0123456789')):]`
unfoldable pub trailing_digits : Text → Text
unfolding leading_digits
trailing_digits s = reverse (leading_digits (reverse s))

last_part : Text → List Text → Text
last_part p [] = p
last_part p (q ∷ ps) = last_part q ps

-- `s.split(sep)[-1]`
unfoldable pub after_last : ℕ → Text → Text
unfolding last_part
after_last sep s = last_part [] (split sep s)

starts_with-append : (s t : Text) → starts_with (t ++ s) t ≡ true
unfolding starts_with
starts_with-append [] [] = refl
starts_with-append (c ∷ s) [] = refl
starts_with-append s (c ∷ t) = ground (arith, starts_with-append s t)

length-reverse : (s : Text) → length (reverse s) ≡ length s
length-reverse [] = refl
length-reverse (c ∷ s) =
    ap length (reverse-append (c ∷ []) s)
    ∙ length-append (reverse s) (c ∷ [])
    ∙ omega (arith, length-reverse s)

drop-append : (t s : Text) → drop (length t) (t ++ s) ≡ s
drop-append [] s = refl
drop-append (c ∷ t) s = drop-append t s

pub ends_with-append : (s t : Text) → ends_with (s ++ t) t ≡ true
unfolding ends_with
ends_with-append s t = rw (reverse-append s t) (starts_with-append (reverse s) (reverse t))

pub drop_suffix-append : (s t : Text) → drop_suffix (s ++ t) t ≡ s
unfolding drop_suffix
drop_suffix-append s t =
    let cut : drop (length t) (reverse t ++ reverse s) ≡ reverse s =
      ap (λ n. drop n (reverse t ++ reverse s)) (sym (length-reverse t))
      ∙ drop-append (reverse t) (reverse s) in
    rw (reverse-append s t, cut) (reverse-reverse s)

leading_digits-append :
    (d s : Text) (c : ℕ)
    → all_digits d ≡ true
    → is_digit c ≡ false
    → leading_digits (d ++ c ∷ s) ≡ d
unfolding leading_digits
leading_digits-append [] s c h k = rw k refl
leading_digits-append (x ∷ d) s c h k = ground (arith, leading_digits-append d s c)

all_digits-append :
    (s t : Text) → all_digits s ≡ true → all_digits t ≡ true → all_digits (s ++ t) ≡ true
all_digits-append [] t h k = k
all_digits-append (c ∷ s) t h k = ground (arith, all_digits-append s t)

all_digits-reverse : (s : Text) → all_digits s ≡ true → all_digits (reverse s) ≡ true
all_digits-reverse [] h = refl
all_digits-reverse (c ∷ s) h =
    rw (reverse-append (c ∷ []) s)
      (all_digits-append (reverse s) (c ∷ []) (all_digits-reverse s (ground arith)) (ground arith))

-- The digits behind a character that is none are those at the end.
pub trailing_digits-append :
    (s d : Text) (c : ℕ)
    → all_digits d ≡ true
    → is_digit c ≡ false
    → trailing_digits (s ++ c ∷ d) ≡ d
unfolding trailing_digits
trailing_digits-append s d c h k =
    let turned : reverse (s ++ c ∷ d) ≡ reverse d ++ c ∷ reverse s =
      reverse-append s (c ∷ d)
      ∙ ap (λ l. l ++ reverse s) (reverse-append (c ∷ []) d)
      ∙ append_assoc (reverse d) (c ∷ []) (reverse s) in
    rw (turned, leading_digits-append (reverse d) (reverse s) c (all_digits-reverse d h) k)
      (reverse-reverse d)
