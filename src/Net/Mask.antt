-- ===== src/Net/Mask.antt =====
-- `netmask & address` clears the host bits: the bit operation as arithmetic.
use Prim.Native.Nat.{min, bit_and, digits, bit_and-bitwise}
use native.Mathlib.Nat.{
  pow-suc, one-le-pow, add-zero, add-suc, div-lt_iff_lt-mul, div-add-mod', mod-lt,
}
use mathlib.Core.Path.{ap₂}
use umbrella_linux.Base.{
  ℕ, zero, suc, ◌+◌, ◌-◌, ◌*◌, ◌/◌, ◌%◌, ◌^◌, ◌≤◌, ◌<◌, ◌≡◌, refl, sym, ◌∙◌, ap, arith,
}
use umbrella_linux.Net.{address_limit, masked, netmask}

-- The digits of a conjunction, with a count of the digits to go.
abbrev both : ℕ → ℕ → ℕ → ℕ
both n a b = digits (λ _. zero) min n a b

both-zero : (n b : ℕ) → both n zero b ≡ 0
both-zero zero b = refl
both-zero (suc n) b = refl

both_more : (n m a b : ℕ) → a ≤ n → a ≤ m → both n a b ≡ both m a b
both_more n m zero b h k = both-zero n b ∙ sym (both-zero m b)
both_more zero m (suc a) b h k = absurd (omega arith)
both_more (suc n) zero (suc a) b h k = absurd (omega arith)
both_more (suc n) (suc m) (suc a) b h k =
    omega (arith, both_more n m (suc a / 2) (b / 2) (omega arith) (omega arith))

both_enough : (n a b : ℕ) → a ≤ n → both n a b ≡ bit_and a b
both_enough n a b h = both_more n a a b h (omega arith) ∙ sym (bit_and-bitwise a b)

-- The lowest digit of a conjunction.
bit_and-low : (a b : ℕ) → bit_and a b ≡ bit_and (a / 2) (b / 2) * 2 + min (a % 2) (b % 2)
bit_and-low zero b = omega (arith, bit_and-bitwise 0 b, bit_and-bitwise 0 (b / 2))
bit_and-low (suc a) b =
    omega (arith, bit_and-bitwise (suc a) b, both_enough a (suc a / 2) (b / 2) (omega arith))

-- A mask of ones keeps a number that fits.
bit_and_ones : (j q : ℕ) → q < 2 ^ j → bit_and (2 ^ j - 1) q ≡ q
bit_and_ones zero q h = omega (arith, bit_and-bitwise 0 q)
bit_and_ones (suc j) q h =
    ground
      (arith, bit_and-low (2 ^ suc j - 1) q, pow-suc 2 j, one-le-pow j 2, bit_and_ones j (q / 2))

two_pow_suc-mul : (q k : ℕ) → q * 2 ^ suc k ≡ (q * 2 ^ k) * 2
two_pow_suc-mul q k = omega (arith, ap (λ (t : ℕ). q * t) (pow-suc 2 k))

clear_zero :
    (j q r : ℕ) → r ≡ 0 → bit_and ((2 ^ j - 1) * 2 ^ 0) (q * 2 ^ 0 + r) ≡ bit_and (2 ^ j - 1) q
clear_zero j q r h = ap₂ bit_and (omega arith) (omega arith)

-- Ones above `k` zeros clear the low `k` digits.
bit_and_high :
    (k j q r : ℕ)
    → r < 2 ^ k
    → q < 2 ^ j
    → bit_and ((2 ^ j - 1) * 2 ^ k) (q * 2 ^ k + r) ≡ q * 2 ^ k
bit_and_high zero j q r hr hq =
    rw (clear_zero j q r (omega arith)) (omega (arith, bit_and_ones j q hq))
bit_and_high (suc k) j q r hr hq = ground (
  arith,
  bit_and-low ((2 ^ j - 1) * 2 ^ suc k) (q * 2 ^ suc k + r),
  two_pow_suc-mul q k,
  two_pow_suc-mul (2 ^ j - 1) k,
  pow-suc 2 k,
  bit_and_high k j q (r / 2),
)

pub two_pow-add : (a k : ℕ) → 2 ^ (a + k) ≡ 2 ^ a * 2 ^ k
two_pow-add a zero = rw add-zero (omega arith)
two_pow-add a (suc k) =
    rw add-suc (ground (arith, pow-suc 2 (a + k), two_pow_suc-mul (2 ^ a) k, two_pow-add a k))

pub two_pow_32 : (p : ℕ) → p ≤ 32 → 2 ^ p * 2 ^ (32 - p) ≡ address_limit
two_pow_32 p h = sym (two_pow-add p (32 - p)) ∙ ap (λ (t : ℕ). 2 ^ t) {y = 32} (omega arith)

pred-mul : (x s : ℕ) → 0 < x → (x - 1) * s ≡ x * s - s
pred-mul zero s h = absurd (omega arith)
pred-mul (suc y) s h = grind arith

-- A mask of `p` ones over 32 digits.
netmask_as_product : (p : ℕ) → p ≤ 32 → netmask p ≡ (2 ^ p - 1) * 2 ^ (32 - p)
netmask_as_product p h =
    omega (arith, two_pow_32 p h, pred-mul (2 ^ p) (2 ^ (32 - p)) (one-le-pow p 2 (omega arith)))

high_part_lt : (p a : ℕ) → p ≤ 32 → a < address_limit → a / 2 ^ (32 - p) < 2 ^ p
high_part_lt p a h k =
    (div-lt_iff_lt-mul (one-le-pow (32 - p) 2 (omega arith))).1 (omega (arith, two_pow_32 p h))

-- On an address, `netmask & address` is the address with its host bits cleared.
pub bit_and-netmask : (p a : ℕ) → p ≤ 32 → a < address_limit → bit_and (netmask p) a ≡ masked p a
bit_and-netmask p a h k =
    let s = 2 ^ (32 - p) in
    ap₂ bit_and (netmask_as_product p h) (sym (div-add-mod' a s))
    ∙ bit_and_high (32 - p) p (a / s) (a % s) (mod-lt a (one-le-pow (32 - p) 2 (omega arith)))
        (high_part_lt p a h k)
