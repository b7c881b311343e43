-- ===== src/Text/Decimal.antt =====
-- `str` of a number, and the value of a run of decimal digits.
use umbrella_linux.Base.{
  ℕ, zero, suc, ◌+◌, ◌-◌, ◌*◌, ◌/◌, ◌%◌, ◌<◌, ◌≡◌, ◌≢◌, refl, Bool, true, false, ◌&&◌, [], ◌∷◌,
  arith, Text, leb, ltb, if◌then◌else◌, All, ◌∙◌,
}

abbrev pub is_digit : ℕ → Bool
is_digit c = leb b'0' c && leb c b'9'

abbrev pub all_digits : Text → Bool
all_digits [] = true
all_digits (c ∷ s) = is_digit c && all_digits s

-- The number that digits spell behind `n`.
abbrev pub value : ℕ → Text → ℕ
value n [] = n
value n (c ∷ s) = value (n * 10 + (c - b'0')) s

decimal_from : ℕ → ℕ → Text → Text
decimal_from zero n acc = acc
decimal_from (suc f) n acc =
    let digits = (b'0' + n % 10) ∷ acc in
    let rest = decimal_from f (n / 10) digits in if ltb n 10 then digits else rest

-- `str(n)`: the fuel is above the number of digits.
unfoldable pub decimal : ℕ → Text
unfolding decimal_from
decimal n = decimal_from (suc n) n []

-- More fuel than enough changes nothing.
decimal_from_fuel :
    (f g n : ℕ) (acc : Text) → n < f → n < g → decimal_from f n acc ≡ decimal_from g n acc
unfolding decimal_from
decimal_from_fuel zero g n acc h k = absurd (omega arith)
decimal_from_fuel (suc f) zero n acc h k = absurd (omega arith)
decimal_from_fuel (suc f) (suc g) n acc h k =
    ground (arith, decimal_from_fuel f g (n / 10) ((b'0' + n % 10) ∷ acc))

decimal_from_three :
    (f n : ℕ)
    → n < 1000
    → decimal_from (suc (suc (suc f))) n [] ≡ (
        if ltb n 10
        then (b'0' + n) ∷ []
        else if ltb n 100
        then (b'0' + n / 10) ∷ (b'0' + n % 10) ∷ []
        else (b'0' + n / 100) ∷ (b'0' + n / 10 % 10) ∷ (b'0' + n % 10) ∷ [])
unfolding decimal_from
decimal_from_three f n h = ground arith

-- A number below 1000 is written with one, two or three digits.
pub decimal_of_lt_thousand :
    (n : ℕ)
    → n < 1000
    → decimal n ≡ (
        if ltb n 10
        then (b'0' + n) ∷ []
        else if ltb n 100
        then (b'0' + n / 10) ∷ (b'0' + n % 10) ∷ []
        else (b'0' + n / 100) ∷ (b'0' + n / 10 % 10) ∷ (b'0' + n % 10) ∷ [])
unfolding decimal
decimal_of_lt_thousand n h =
    decimal_from_fuel (suc n) (suc (suc (suc n))) n [] (omega arith) (omega arith)
    ∙ decimal_from_three n n h

-- What `decimal` writes is read back as the number, wherever it stands.
decimal_from-value : (f n : ℕ) (acc : Text) → n < f → value 0 (decimal_from f n acc) ≡ value n acc
unfolding decimal_from
decimal_from-value zero n acc h = absurd (omega arith)
decimal_from-value (suc f) n acc h =
    ground (arith, decimal_from-value f (n / 10) ((b'0' + n % 10) ∷ acc))

pub value-decimal : (n : ℕ) → value 0 (decimal n) ≡ n
unfolding decimal
value-decimal n = decimal_from-value (suc n) n [] (omega arith)

decimal_from-all_digits :
    (f n : ℕ) (acc : Text) → all_digits acc ≡ true → all_digits (decimal_from f n acc) ≡ true
unfolding decimal_from
decimal_from-all_digits zero n acc h = h
decimal_from-all_digits (suc f) n acc h =
    ground (arith, decimal_from-all_digits f (n / 10) ((b'0' + n % 10) ∷ acc))

pub decimal-all_digits : (n : ℕ) → all_digits (decimal n) ≡ true
unfolding decimal
decimal-all_digits n = decimal_from-all_digits (suc n) n [] refl

decimal_from-ne-nil : (f n : ℕ) (acc : Text) → acc ≢ [] → decimal_from f n acc ≢ []
unfolding decimal_from
decimal_from-ne-nil zero n acc h = h
decimal_from-ne-nil (suc f) n acc h =
    ground (arith, decimal_from-ne-nil f (n / 10) ((b'0' + n % 10) ∷ acc))

pub decimal-ne-nil : (n : ℕ) → decimal n ≢ []
unfolding decimal
decimal-ne-nil n = ground (arith, decimal_from-ne-nil n (n / 10) ((b'0' + n % 10) ∷ []))

-- Digits hold no character that is not a digit.
pub all_digits-Lacks :
    (s : Text) (c : ℕ) → all_digits s ≡ true → is_digit c ≡ false → All (λ x. x ≢ c) s
all_digits-Lacks [] c h k = tt
all_digits-Lacks (x ∷ s) c h k = (λ e. ground arith, all_digits-Lacks s c (ground arith) k)
