-- ===== src/Base/Errors.antt =====
-- Python's exceptions as values: a script or a function that may raise returns a `Result`.
use mathlib.Core.Path.{◌≡◌, refl}
use mathlib.Core.Bool.{Bool, true, false}
use mathlib.Core.Option.{Option, none, some}
use mathlib.Core.List.{List, [], ◌∷◌}
use umbrella_linux.Base.Equality.{Text}

-- The exceptions that the scripts can meet. A `TemplateError` carries its message.
pub data Exc : Type 0 where
  attribute_error key_error value_error index_error name_error type_error recursion_error : Exc
  template_error : Text → Exc

-- What a call comes to: an exception, or a value.
pub data Result {ℓ} (A : Type ℓ) : Type ℓ where
  err : Exc → Result A
  ok : A → Result A

module _ {ℓ κ} {A : Type ℓ} {B : Type κ} where
  infixl 5 ◌>>=◌
  abbrev pub ◌>>=◌ : Result A → (A → Result B) → Result B
  err x >>= next = err x
  ok a >>= next = next a

-- A step of which only the exception matters.
infixl 5 ◌>>◌
abbrev pub ◌>>◌ {ℓ} : {B : Type ℓ} → Result (Unit {0}) → Result B → Result B
err x >> after = err x
ok _ >> after = after

-- A value that the program uses as if it could not be missing.
abbrev pub or_raise {ℓ} : {A : Type ℓ} → Exc → Option A → Result A
or_raise x none = err x
or_raise x (some a) = ok a

-- Raise when the test holds.
abbrev pub raise_if : Bool → Exc → Result (Unit {0})
raise_if true x = err x
raise_if false x = ok tt

-- A loop over a list whose body may raise.
module _ {ℓ κ} {A : Type ℓ} {S : Type κ} (body : S → A → Result S) where
  abbrev pub fold_result : S → List A → Result S
  fold_result s [] = ok s
  fold_result s (x ∷ xs) = body s x >>= λ t. fold_result t xs

module _ {ℓ κ} {A : Type ℓ} {B : Type κ} (f : A → Result B) where
  abbrev pub map_result : List A → Result (List B)
  map_result [] = ok []
  map_result (x ∷ xs) = f x >>= λ y. map_result xs >>= λ ys. ok (y ∷ ys)

module _ {ℓ κ} {A : Type ℓ} {B : Type κ} where
  -- If a bind succeeds, both of its parts do.
  pub >>=-eq-ok :
      (first : Result A) (next : A → Result B) {b : B}
      → (first >>= next) ≡ ok b
      → (a : A) × (first ≡ ok a) × (next a ≡ ok b)
  >>=-eq-ok (err x) next h = cc
  >>=-eq-ok (ok a) next h = (a, refl, h)

  -- What follows from every run of the rest follows from a bind that succeeds.
  pub after_bind {μ} :
      {P : Type μ} (first : Result A) (next : A → Result B) (b : B)
      → ((a : A) → next a ≡ ok b → P)
      → (first >>= next) ≡ ok b
      → P
  after_bind (err x) next b step h = absurd (cc)
  after_bind (ok a) next b step h = step a h

  -- The same, with the result of the first part known.
  pub after_known {μ} :
      {P : Type μ} (first : Result A) (next : A → Result B) (b : B)
      → ((a : A) → first ≡ ok a → next a ≡ ok b → P)
      → (first >>= next) ≡ ok b
      → P
  after_known (err x) next b step h = absurd (cc)
  after_known (ok a) next b step h = step a refl h

pub >>-eq-ok {ℓ} :
    {B : Type ℓ} (first : Result (Unit {0})) (next : Result B) {b : B}
    → (first >> next) ≡ ok b
    → (u : Unit {0}) × (first ≡ ok u) × (next ≡ ok b)
>>-eq-ok (err x) next h = cc
>>-eq-ok (ok u) next h = (u, refl, h)

pub raise_if-false : (b : Bool) (x : Exc) {u : Unit {0}} → raise_if b x ≡ ok u → b ≡ false
raise_if-false true x h = cc
raise_if-false false x h = refl
