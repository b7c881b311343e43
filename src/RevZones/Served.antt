-- ===== src/RevZones/Served.antt =====
-- The computed set of classful networks serves every network of the system.
use mathlib.Core.Option.{some-injective}
use umbrella_linux.Base.{
  ◌%◌, ◌≡◌, refl, sym, subst, true, false, List, [], ◌∷◌, some, arith, Text, ok, In, here, there,
  contains, contains→In, In→contains, inl, inr, ◌⊎◌, Bool-cases, Option-cases, if◌then◌else◌, ◌==◌,
  nat_eq, text_eq, All, ==_iff, In-cons,
}
use umbrella_linux.Base.Dict.{Dict, lookup, lookup-insert, insert}
use umbrella_linux.Net.{Network, network_eq, IsNetwork, print_network, has_network}
use umbrella_linux.Networks.{is_subnet_of}
use umbrella_linux.Networks.Subnet.{Within, is_subnet_of→Within, Within→is_subnet_of, Within-refl}
use umbrella_linux.RevZones.{
  Wrappers, cached, is_served, add_wrapper, add_wrappers, drop_subsets_of, drop_subsets,
  first_around, find_classful,
}
use umbrella_linux.RevZones.Wrapping.{
  IsClassful, wrapper_of, classful_wrapper_lem, wrapper_of-IsNetwork, Within-wrapper_of,
  print_network_injective, IsGood, Adds, add_known,
}

insert_known :
    (c : Network) (d : Dict Text Network) (k : Text) (x : Network)
    → lookup k (insert (print_network c) c d) ≡ some x
    → (lookup k d ≡ some x) ⊎ ((x ≡ c) × (k ≡ print_network c))
insert_known c d k x e = elim (text_eq.dec k (print_network c)) [
  | yes p ↦ inr (ground (arith, lookup-insert k (print_network c) c d), p)
  | no n ↦ inl (ground (arith, lookup-insert k (print_network c) c d))
]

cached-Adds :
    (c : Network) (w : Wrappers) → IsGood w → IsNetwork c → IsClassful c → Adds c w (cached c w)
unfolding cached
cached-Adds c w g nc k = elim (Option-cases (lookup (print_network c) w.cache)) [
  | inl e ↦ rw (e, cached) (add_known c w _ g nc k (insert_known c w.cache))
  | inr (old, e) ↦
      let (i, p) = g.known (print_network c) old e in
      let same = print_network_injective old c (g.classful old i).0 nc p in
      rw (e, cached, same) (add_known c w w.cache g nc k (λ j x h. inl h))
]

-- The classful network that is added for a served network.
pub class_of : Network → Network
class_of n = if n.prefixlen % 8 == 0 then n else wrapper_of n

Within-class_of : (n : Network) → IsNetwork n → Within n (class_of n)
unfolding class_of
Within-class_of n h =
    elim (n.prefixlen % 8 == 0) as (λ b. Within n (if b then n else wrapper_of n)) [
      | true ↦ Within-refl n
      | false ↦ Within-wrapper_of n h
    ]

add_wrapper_served :
    (t : Text) (n : Network) (w : Wrappers)
    → is_served t ≡ true
    → IsNetwork n
    → IsGood w
    → (w' : Wrappers) × (add_wrapper t n w ≡ ok w') × Adds (class_of n) w w'
unfolding add_wrapper class_of
add_wrapper_served t n w s h g = elim (Bool-cases (n.prefixlen % 8 == 0)) [
  | inl e ↦ rw (s, e) (_, refl, add_known n w w.cache g h ((==_iff _ _).0 e) (λ j x k. inl k))
  | inr e ↦
      rw (s, e, classful_wrapper_lem n h)
        (_, refl, cached-Adds (wrapper_of n) w g (wrapper_of-IsNetwork n h) (omega arith))
]

-- What a network of the dict finds in the set.
abbrev pub Serves : List Network → Text × Network → Type 0
Serves classful (t, n) = is_served t ≡ true → In (class_of n) classful

pub add_wrappers_serve :
    (nets : Dict Text Network) (w : Wrappers)
    → All (λ (t, n). IsNetwork n) nets
    → IsGood w
    → (w' : Wrappers) × (add_wrappers nets w ≡ ok w')
      × IsGood w'
      × ((x : Network) → In x w.classfulnets → In x w'.classfulnets)
      × All (Serves w'.classfulnets) nets
unfolding add_wrappers
add_wrappers_serve [] w _ g = (w, refl, g, λ x i. i, tt)
add_wrappers_serve ((t, n) ∷ nets) w (h, hs) g = elim (Bool-cases (is_served t)) [
  | inl s ↦
      let (w1, e1, a) = add_wrapper_served t n w s h g in
      let (w2, e2, g2, keeps, serve) = add_wrappers_serve nets w1 hs a.good in
      rw e1 (w2, e2, g2, λ x i. keeps x (a.keeps x i), ((λ _. keeps (class_of n) a.added), serve))
  | inr s ↦
      let (w2, e2, g2, keeps, serve) = add_wrappers_serve nets w hs g in
      (w2, (unfold add_wrapper in rw s e2), g2, keeps, ((λ s'. absurd (cc (s, s'))), serve))
]

drop_subsets_of-ok :
    (n : Network) (nets kept : List Network) → drop_subsets_of n nets kept ≡ ok kept
unfolding drop_subsets_of has_network
drop_subsets_of-ok n [] kept = refl
drop_subsets_of-ok n (m ∷ nets) kept = drop_subsets_of-ok n nets kept

-- The removal of subsets removes nothing, since `in` is False between networks.
pub drop_subsets-ok : (all nets kept : List Network) → drop_subsets all nets kept ≡ ok kept
unfolding drop_subsets
drop_subsets-ok all [] kept = refl
drop_subsets-ok all (n ∷ nets) kept =
    rw (drop_subsets_of-ok n all kept) (drop_subsets-ok all nets kept)

-- `find_classful` finds a network of the list around `n`, if there is one.
find_classful_sound :
    (n c : Network) (nets : List Network) → first_around n nets ≡ some c → In c nets × Within n c
unfolding first_around
find_classful_sound n c [] h = absurd (cc)
find_classful_sound n c (x ∷ nets) h = elim (Bool-cases (is_subnet_of n x)) [
  | inl s ↦
      let e : x ≡ c = ground arith in
      (here (sym e), subst (λ y. Within n y) e (is_subnet_of→Within n x s))
  | inr s ↦ let (i, w) = find_classful_sound n c nets (ground arith) in (there i, w)
]

-- `find_classful` gives a network of the list.
pub find_classful-In :
    (n c : Network) (nets : List Network) → find_classful n nets ≡ some c → In c nets
unfolding find_classful
find_classful-In n c nets h = elim (Bool-cases (contains nets n)) [
  | inl e ↦
      let same : n ≡ c = some-injective n c (rw e at h) in
      subst (λ z. In z nets) same (contains→In nets n e)
  | inr e ↦ (find_classful_sound n c nets (rw e at h)).0
]

-- A network of the list is found as itself.
pub find_classful_self :
    (n : Network) (nets : List Network) → In n nets → find_classful n nets ≡ some n
unfolding find_classful
find_classful_self n nets i = rw (In→contains nets n i) refl

find_classful_complete :
    (n m : Network) (nets : List Network)
    → In m nets
    → Within n m
    → (c : Network) × (first_around n nets ≡ some c)
unfolding first_around
find_classful_complete n m [] i w = elim i [ ]
find_classful_complete n m (x ∷ nets) i w = elim (Bool-cases (is_subnet_of n x)) [
  | inl s ↦ (x, rw s)
  | inr s ↦ elim (In-cons m x nets i) [
    | inl e ↦ absurd (cc (s, Within→is_subnet_of n x (subst (λ y. Within n y) e w)))
    | inr j ↦ let (c, e) = find_classful_complete n m nets j w in (c, rw s e)
  ]
]

-- A classful network of the set that has all the addresses of `n`.
pub record Found (n : Network) (classful : List Network) : Type 0 where
  pub zone : Network
  pub found : find_classful n classful ≡ some zone
  pub member : In zone classful
  pub around : Within n zone

pub find_class_of :
    (n : Network) (classful : List Network)
    → IsNetwork n
    → In (class_of n) classful
    → Found n classful
unfolding find_classful
find_class_of n classful h i = elim (Bool-cases (contains classful n)) [
  | inl e ↦ record {
    zone = n;
    found = rw e;
    member = contains→In classful n e;
    around = Within-refl n;
  }
  | inr e ↦
      let (c, f) = find_classful_complete n (class_of n) classful i (Within-class_of n h) in
      let (j, w) = find_classful_sound n c classful f in
      record { zone = c; found = rw e f; member = j; around = w }
]
