-- ===== src/Text/Order.antt =====
-- The order of texts by code points, and `sorted` on lists of texts.
use mathlib.Core.List.{Perm}
use mathlib.Core.List.Perm
use Prim.Native.Nat.{compare, Ordering}
use umbrella_linux.Base.{
  ◌≡◌, refl, Bool, true, false, List, [], ◌∷◌, arith, Text, if◌then◌else◌, All, In, here, there,
  ◌↔◌,
}

-- `a <= b` on `str`.
unfoldable pub text_leb : Text → Text → Bool
text_leb [] t = true
text_leb (c ∷ s) [] = false
text_leb (c ∷ s) (d ∷ t) = elim (compare c d) [
  | Ordering.lt ↦ true
  | Ordering.eq ↦ text_leb s t
  | Ordering.gt ↦ false
]

abbrev pub AtMost : Text → Text → Type 0
AtMost a b = text_leb a b ≡ true

text_leb-total : (a b : Text) → text_leb a b ≡ false → text_leb b a ≡ true
unfolding text_leb
text_leb-total [] b h = cc
text_leb-total (c ∷ s) [] h = refl
text_leb-total (c ∷ s) (d ∷ t) h = ground (arith, text_leb-total s t)

text_leb_trans : (a b c : Text) → AtMost a b → AtMost b c → AtMost a c
unfolding text_leb
text_leb_trans [] b c h k = refl
text_leb_trans (x ∷ a) [] c h k = cc
text_leb_trans (x ∷ a) (y ∷ b) [] h k = cc
text_leb_trans (x ∷ a) (y ∷ b) (z ∷ c) h k = ground (arith, text_leb_trans a b c)

insert_sorted : Text → List Text → List Text
insert_sorted x [] = x ∷ []
insert_sorted x (y ∷ ys) = if text_leb x y then x ∷ y ∷ ys else y ∷ insert_sorted x ys

-- `sorted(l)`, and the list after `l.sort()`.
unfoldable pub sorted : List Text → List Text
unfolding insert_sorted text_leb
sorted [] = []
sorted (x ∷ xs) = insert_sorted x (sorted xs)

-- Every element is at most each of those behind it.
abbrev pub IsSorted : List Text → Type 0
IsSorted [] = Unit
IsSorted (x ∷ xs) = All (AtMost x) xs × IsSorted xs

All-AtMost-trans : (x y : Text) (l : List Text) → AtMost x y → All (AtMost y) l → All (AtMost x) l
All-AtMost-trans x y [] h k = tt
All-AtMost-trans x y (z ∷ l) h (k, ks) = (text_leb_trans x y z h k, All-AtMost-trans x y l h ks)

insert_sorted-All :
    (z x : Text) (l : List Text)
    → AtMost z x
    → All (AtMost z) l
    → All (AtMost z) (insert_sorted x l)
unfolding insert_sorted
insert_sorted-All z x [] h _ = (h, tt)
insert_sorted-All z x (y ∷ l) h (k, ks) = ground (arith, insert_sorted-All z x l h ks)

insert_sorted-IsSorted : (x : Text) (l : List Text) → IsSorted l → IsSorted (insert_sorted x l)
unfolding insert_sorted
insert_sorted-IsSorted x [] _ = (tt, tt)
insert_sorted-IsSorted x (y ∷ l) (h, s) = ground (
  arith,
  All-AtMost-trans x y l,
  text_leb-total x y,
  insert_sorted-All y x l,
  insert_sorted-IsSorted x l s,
)

insert_sorted-perm : (x : Text) (l : List Text) → Perm (insert_sorted x l) (x ∷ l)
unfolding insert_sorted
insert_sorted-perm x [] = Perm.refl (x ∷ [])
insert_sorted-perm x (y ∷ l) =
    elim (text_leb x y)
      as (λ b. Perm (if b then x ∷ y ∷ l else y ∷ insert_sorted x l) (x ∷ y ∷ l)) [
        | true ↦ Perm.refl (x ∷ y ∷ l)
        | false ↦ Perm.trans (Perm.cons y (insert_sorted-perm x l)) (Perm.swap x y l)
      ]

pub sorted-IsSorted : (l : List Text) → IsSorted (sorted l)
unfolding sorted
sorted-IsSorted [] = tt
sorted-IsSorted (x ∷ l) = insert_sorted-IsSorted x (sorted l) (sorted-IsSorted l)

pub sorted-perm : (l : List Text) → Perm (sorted l) l
unfolding sorted
sorted-perm [] = Perm.refl []
sorted-perm (x ∷ l) = Perm.trans (insert_sorted-perm x (sorted l)) (Perm.cons x (sorted-perm l))

In-first_two : (z x y : Text) (l : List Text) → In z (y ∷ x ∷ l) → In z (x ∷ y ∷ l)
In-first_two z x y l (here e) = there (here e)
In-first_two z x y l (there (here e)) = here e
In-first_two z x y l (there (there i)) = there (there i)

In-second :
    (z x y : Text) (l k : List Text) → (In z l → In z (x ∷ k)) → In z (y ∷ l) → In z (x ∷ y ∷ k)
In-second z x y l k step (here e) = there (here e)
In-second z x y l k step (there i) = In-first_two z x y k (there (step i))

In-back :
    (z x y : Text) (l k : List Text) → (In z (x ∷ k) → In z l) → In z (x ∷ y ∷ k) → In z (y ∷ l)
In-back z x y l k step (here e) = there (step (here e))
In-back z x y l k step (there (here e)) = here e
In-back z x y l k step (there (there i)) = there (step (there i))

insert_sorted-In : (z x : Text) (l : List Text) → In z (insert_sorted x l) ↔ In z (x ∷ l)
unfolding insert_sorted
insert_sorted-In z x [] = (λ h. h, λ h. h)
insert_sorted-In z x (y ∷ l) =
    let (to, from) = insert_sorted-In z x l in
    elim (text_leb x y)
      as (λ b. In z (if b then x ∷ y ∷ l else y ∷ insert_sorted x l) ↔ In z (x ∷ y ∷ l)) [
        | true ↦ (λ h. h, λ h. h)
        | false ↦
            (In-second z x y (insert_sorted x l) l to, In-back z x y (insert_sorted x l) l from)
      ]

In-after : (z x : Text) (l k : List Text) → (In z l → In z k) → In z (x ∷ l) → In z (x ∷ k)
In-after z x l k step (here e) = here e
In-after z x l k step (there i) = there (step i)

pub sorted-In : (z : Text) (l : List Text) → In z (sorted l) ↔ In z l
unfolding sorted
sorted-In z [] = (λ h. h, λ h. h)
sorted-In z (x ∷ l) =
    let (to, from) = sorted-In z l in
    let (out, back) = insert_sorted-In z x (sorted l) in
    (λ h. In-after z x (sorted l) l to (out h), λ h. back (In-after z x l (sorted l) from h))
