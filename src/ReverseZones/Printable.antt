-- ===== src/ReverseZones/Printable.antt =====
-- When the lines of the zones can be printed.
use umbrella_linux.Base.{
  ℕ, ◌+◌, ◌-◌, ◌≤◌, ◌<◌, ◌≡◌, refl, sym, ◌∙◌, subst, true, false, not, ◌&&◌, List, [], ◌∷◌, map,
  Option, some, Text, ok, In, arith, ◌==◌, nat_eq, option_eq, text_eq, map_result, or_raise,
  or_raise-some, type_error, ltb_iff, ltb, Bool-cases, Option-cases, In→contains, inl, inr, ◌>>=◌,
}
use native.Mathlib.Nat.{pow-le-pow_right}
use mathlib.Core.List.{flatten}
use umbrella_linux.Base.Dict.{Dict, lookup, keys, values, contains-keys}
use umbrella_linux.Base.Places.{map_result_total, In-map_result, map-In}
use umbrella_linux.Text.Order.{sorted, sorted-In}
use umbrella_linux.Text.Keyed.{sorted_by, sorted_by-In}
use umbrella_linux.Net.{
  Network, network_eq, IsNetwork, num_addresses, broadcast_address, address_limit, has_address,
  add_address, sub_address, print_network,
}
use umbrella_linux.Net.Range.{has_address_iff, has_address-lt}
use umbrella_linux.Networks.{is_subnet_of}
use umbrella_linux.RevZones.{classless_short_name}
use umbrella_linux.ReverseZones.{
  Setting, Record, delegation, delegations, sorted_functions, host_pointer, pointer, pointers,
}

-- A network with room for a short name: it has two addresses at least.
pub record IsWide (n : Network) : Type 0 where
  pub valid : IsNetwork n
  pub below : n.prefixlen < 32

two_addresses : (n : Network) → IsWide n → 2 ≤ num_addresses n
two_addresses n h = omega (
  arith,
  pow-le-pow_right {n = 2} (omega arith) {i = 1} {j = 32 - n.prefixlen} (omega (arith, h.below)),
)

pub classless_short_name_total :
    (n nc : Network) → IsWide n → (short : Text) × (classless_short_name n nc ≡ ok short)
unfolding classless_short_name add_address sub_address
classless_short_name_total n nc h =
    let size = two_addresses n h in
    let last : has_address n (broadcast_address n) ≡ true =
      (has_address_iff n (broadcast_address n) h.valid).1 (omega arith, omega arith) in
    let room = has_address-lt n (broadcast_address n) h.valid last in
    let up : ltb (n.address + 1) address_limit ≡ true =
      (ltb_iff (n.address + 1) address_limit).1 (omega arith) in
    let down : ltb (broadcast_address n) 1 ≡ false = ground arith in rw (up, down) (_, refl)

module _ (s : Setting) (net netc : Network) (router : Text) where
  delegation_total :
      (n : Network)
      → IsWide n
      → (records : List Record) × (delegation net netc router n ≡ ok records)
  unfolding delegation
  delegation_total n h = elim (Bool-cases (is_subnet_of n net && not (n == net))) [
    | inl inside ↦
        let (short, named) = classless_short_name_total n net h in rw (inside, named) (_, refl)
    | inr outside ↦ rw outside ([], refl)
  ]

  -- A linking zone can be printed if every network has two addresses at least.
  pub delegations_total :
      ((n : Network) → In n (values s.networks) → IsWide n)
      → (records : List Record) × (delegations s net netc router ≡ ok records)
  unfolding delegations
  delegations_total wide =
      let (parts, made) =
        map_result_total (delegation net netc router) (sorted_by print_network (values s.networks))
          (λ n i.
            delegation_total n (wide n (sorted_by-In print_network n (values s.networks) i))) in
      rw made (flatten parts, refl)

-- Every function has a text and a main address.
abbrev pub HasFunctions : Setting → Type 0
HasFunctions s =
    (f : Option Text)
    → In f (keys s.hosts.funchosts)
    → (name : Text) × (a : ℕ) × (f ≡ some name) × (lookup f s.funcifs ≡ some a)

ordered_functions_total :
    (fs : List (Option Text))
    → ((f : Option Text) → In f fs → (name : Text) × (f ≡ some name))
    → (sorted_fs : List (Option Text)) × ((map_result (or_raise type_error) fs >>= λ names.
          ok (map some (sorted names)))
        ≡ ok sorted_fs)
      × ((f : Option Text) → In f sorted_fs → In f fs)
ordered_functions_total fs each =
    let (names, made) =
      map_result_total (or_raise type_error) fs
        (λ f i. (let (name, e) = each f i in (name, rw e refl))) in
    rw made (
      map some (sorted names),
      refl,
      λ f i.
          let (name, j, e) = map-In some f (sorted names) i in
          let (g, k, is) =
            In-map_result (or_raise type_error) name fs names made ((sorted-In name names).0 j) in
          subst (λ z. In z fs) (or_raise-some type_error g name is ∙ sym e) k,
    )

sorted_functions_total :
    (fs : List (Option Text))
    → ((f : Option Text) → In f fs → (name : Text) × (f ≡ some name))
    → (sorted_fs : List (Option Text)) × (sorted_functions fs ≡ ok sorted_fs)
      × ((f : Option Text) → In f sorted_fs → In f fs)
unfolding sorted_functions
sorted_functions_total [] each = ordered_functions_total [] each
sorted_functions_total (f ∷ []) each = (f ∷ [], refl, λ g i. i)
sorted_functions_total (f ∷ g ∷ fs) each = ordered_functions_total (f ∷ g ∷ fs) each

pointer_total :
    (s : Setting) (net : Network) (f : Option Text) (a : ℕ) (host : Text)
    → lookup f s.funcifs ≡ some a
    → lookup f s.hosts.funchosts ≡ some host
    → (records : List Record) × (pointer s net f ≡ ok records)
unfolding pointer host_pointer
pointer_total s net f a host at named = elim (Bool-cases (has_address net a)) [
  | inl inside ↦ rw (at, inside, named) (_, refl)
  | inr outside ↦ rw (at, outside) ([], refl)
]

pub lookup-keys :
    (f : Option Text) (l : Dict (Option Text) Text)
    → In f (keys l)
    → (host : Text) × (lookup f l ≡ some host)
lookup-keys f l i = elim (Option-cases (lookup f l)) [
  | inl missing ↦ absurd ((contains-keys l f).0 (In→contains (keys l) f i) missing)
  | inr found ↦ found
]

-- The zone of a network can be printed if every function has a text and a main address.
pub pointers_total :
    (s : Setting) (net : Network)
    → HasFunctions s
    → (records : List Record) × (pointers s net ≡ ok records)
unfolding pointers
pointers_total s net each =
    let (functions, listed, back) =
      sorted_functions_total (keys s.hosts.funchosts)
        (λ f i. (let (name, a, e, at) = each f i in (name, e))) in
    let (parts, made) = map_result_total (pointer s net) functions (λ f i.
      let (name, a, e, at) = each f (back f i) in
      let (host, named) = lookup-keys f s.hosts.funchosts (back f i) in
      pointer_total s net f a host at named) in
    rw (listed, made) (flatten parts, refl)
