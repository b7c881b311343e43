-- ===== src/Timestamp/Reading.antt =====
-- A number that was written is read back.
use mathlib.Core.List.{reverse-cons, reverse-reverse}
use umbrella_linux.Base.{
  ℕ, ◌+◌, ◌-◌, ◌*◌, ◌≡◌, ◌≢◌, refl, ap, true, [], ◌∷◌, some, Text, arith, reverse, All, All-append,
  sym, subst, ◌∙◌, pos,
}
use umbrella_linux.Text.{
  strip, skip_spaces, decimal, is_digit, all_digits, value, value-decimal, decimal-all_digits,
  decimal-ne-nil,
}
use umbrella_linux.Timestamp.{digits_after, signed, parse_int}

abbrev IsInk : ℕ → Type 0
IsInk c = is_digit c ≡ true

digits-IsInk : (s : Text) → all_digits s ≡ true → All IsInk s
digits-IsInk [] h = tt
digits-IsInk (c ∷ s) h = (ground arith, digits-IsInk s (ground arith))

ink_digits : (s : Text) → All IsInk s → all_digits s ≡ true
ink_digits [] h = refl
ink_digits (c ∷ s) (h, hs) = ground (arith, ink_digits s hs)

digits_after-value :
    (s : Text) (n : ℕ) → all_digits s ≡ true → digits_after true n s ≡ some (value n s)
unfolding digits_after
digits_after-value [] n h = refl
digits_after-value (c ∷ s) n h = ground (arith, digits_after-value s (n * 10 + (c - b'0')))

signed_digits : (s : Text) → s ≢ [] → all_digits s ≡ true → signed s ≡ some (pos (value 0 s))
unfolding signed
signed_digits [] ne h = absurd (ne refl)
signed_digits (c ∷ s) ne h = ground (arith, digits_after-value s (0 * 10 + (c - b'0')))

skip-ink : (s : Text) → All IsInk s → skip_spaces s ≡ s
unfolding skip_spaces
skip-ink [] h = refl
skip-ink (c ∷ s) (h, hs) = ground arith

reverse-IsInk : (s : Text) → All IsInk s → All IsInk (reverse s)
reverse-IsInk [] h = tt
reverse-IsInk (c ∷ s) (h, hs) =
    subst (All IsInk) (sym (reverse-cons c s))
      (All-append IsInk (reverse s) (c ∷ []) (reverse-IsInk s hs) (h, tt))

strip-digits : (s : Text) → all_digits s ≡ true → strip s ≡ s
unfolding strip
strip-digits s h =
    ap (λ t. reverse (skip_spaces (reverse t))) (skip-ink s (digits-IsInk s h))
    ∙ ap reverse (skip-ink (reverse s) (reverse-IsInk s (digits-IsInk s h)))
    ∙ reverse-reverse s

-- `int('%d' % n)` is `n`.
pub parse_int-decimal : (n : ℕ) → parse_int (decimal n) ≡ some (pos n)
unfolding parse_int
parse_int-decimal n =
    ap signed (strip-digits (decimal n) (decimal-all_digits n))
    ∙ signed_digits (decimal n) (decimal-ne-nil n) (decimal-all_digits n)
    ∙ ap (λ m. some (pos m)) (value-decimal n)
