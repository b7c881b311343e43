-- ===== src/Text.antt =====
-- The methods of Python's `str` that the scripts call, over lists of code points.
mod Split
mod Decimal
pub mod Order
pub mod Keyed
pub mod Suffix
unfoldable pub use Split.*
unfoldable pub use Decimal.*
use Prim.Native.Char.{code}
use umbrella_linux.Base.{
  ℕ, ◌+◌, ◌-◌, Bool, true, false, ◌&&◌, ◌||◌, List, [], ◌∷◌, map, reverse, String, Text, ◌==◌, leb,
  if◌then◌else◌, ◌≡◌, refl, arith, contains, nat_eq,
}

-- The code points of a literal.
abbrev pub codes : String → Text
codes String.[] = []
codes (String.◌∷◌ c s) = code c ∷ codes s

-- The characters that `str.strip` removes.
abbrev pub is_space : ℕ → Bool
is_space c =
    (leb 9 c && leb c 13)
    || (leb 28 c && leb c 32)
    || (leb 8192 c && leb c 8202)
    || contains (133 ∷ 160 ∷ 5760 ∷ 8232 ∷ 8233 ∷ 8239 ∷ 8287 ∷ 12288 ∷ []) c

unfoldable pub skip_spaces : Text → Text
skip_spaces [] = []
skip_spaces (c ∷ s) = let rest = skip_spaces s in if is_space c then rest else c ∷ s

-- `s.strip()`
unfoldable pub strip : Text → Text
unfolding skip_spaces
strip s = reverse (skip_spaces (reverse (skip_spaces s)))

-- `s.lower()` and `s.upper()`, on the ASCII letters that domain names are made of.
unfoldable pub lower : Text → Text
lower = map (λ c. if leb b'A' c && leb c b'Z' then c + 32 else c)

unfoldable pub upper : Text → Text
upper = map (λ c. if leb b'a' c && leb c b'z' then c - 32 else c)

-- `s.startswith(prefix)`
unfoldable pub starts_with : Text → Text → Bool
starts_with s [] = true
starts_with [] (c ∷ p) = false
starts_with (d ∷ s) (c ∷ p) = if d == c then starts_with s p else false

-- `not s.strip()` guards: a text that is empty or all spaces.
abbrev pub is_empty : Text → Bool
is_empty [] = true
is_empty (_ ∷ _) = false
