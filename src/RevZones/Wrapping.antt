-- ===== src/RevZones/Wrapping.antt =====
-- Every served network lies in a classful network of the computed set.
use native.Mathlib.Nat.{div-mul-le_self, mul-div_cancel, one-le-pow}
use umbrella_linux.Base.{
  ℕ, ◌+◌, ◌-◌, ◌*◌, ◌/◌, ◌%◌, ◌^◌, ◌≤◌, ◌≡◌, refl, sym, ◌∙◌, subst, Bool, true, false, List, [],
  ◌∷◌, ◌++◌, some, arith, Text, ok, In, here, there, In-append_left, In-append_right, In-append,
  ◌⊎◌, contains, contains→In, inl, inr, Bool-cases, ap, if◌then◌else◌, nat_eq, text_eq,
}
use umbrella_linux.Base.Dict.{Dict, lookup}
use umbrella_linux.Net.{
  Network, network_eq, IsNetwork, masked, num_addresses, strict_network, print_network, ip_network,
}
use umbrella_linux.Net.Mask.{bit_and-netmask, two_pow-add}
use umbrella_linux.Net.Range.{num_addresses-pos, block_in_block}
use umbrella_linux.Net.Print.{ip_network-print_network}
use umbrella_linux.Networks.Subnet.{Within}
use umbrella_linux.RevZones.{classful_wrapper, add_to_set, Wrappers}

-- A network of whole octets.
abbrev pub IsClassful : Network → Type 0
IsClassful c = c.prefixlen % 8 ≡ 0

abbrev pub wrapper_prefix : Network → ℕ
wrapper_prefix n = 8 * (n.prefixlen / 8)

-- The wrapper of a network.
abbrev pub wrapper_of : Network → Network
wrapper_of n = record {
  address = masked (wrapper_prefix n) n.address;
  prefixlen = wrapper_prefix n;
}

pub masked-masked : (p a : ℕ) → masked p (masked p a) ≡ masked p a
masked-masked p a =
    ap (λ (q : ℕ). q * 2 ^ (32 - p))
      (mul-div_cancel (a / 2 ^ (32 - p)) (one-le-pow (32 - p) 2 (omega arith)))

-- The bit operation succeeds, and gives the wrapper.
pub classful_wrapper_lem : (n : Network) → IsNetwork n → classful_wrapper n ≡ ok (wrapper_of n)
unfolding classful_wrapper strict_network
classful_wrapper_lem n h =
    rw (bit_and-netmask (wrapper_prefix n) n.address (omega (arith, h.prefix_le)) h.address_lt)
      (ground (arith, masked-masked (wrapper_prefix n) n.address))

pub wrapper_of-IsNetwork : (n : Network) → IsNetwork n → IsNetwork (wrapper_of n)
wrapper_of-IsNetwork n h = record {
  prefix_le = omega (arith, h.prefix_le);
  address_lt =
      omega (arith, h.address_lt, div-mul-le_self n.address (num_addresses (wrapper_of n)));
  aligned = masked-masked (wrapper_prefix n) n.address;
}

-- The wrapper has a whole number of times the addresses of the network.
num_addresses-wrapper_of :
    (n : Network)
    → n.prefixlen ≤ 32
    → num_addresses (wrapper_of n) ≡ num_addresses n * 2 ^ (n.prefixlen - wrapper_prefix n)
num_addresses-wrapper_of n h =
    ap (λ (t : ℕ). 2 ^ t) {y = 32 - n.prefixlen + (n.prefixlen - wrapper_prefix n)} (omega arith)
    ∙ two_pow-add (32 - n.prefixlen) (n.prefixlen - wrapper_prefix n)

pub Within-wrapper_of : (n : Network) → IsNetwork n → Within n (wrapper_of n)
Within-wrapper_of n h =
    let t = 2 ^ (n.prefixlen - wrapper_prefix n) in
    let pos = num_addresses-pos n in
    let block =
      block_in_block (num_addresses n) t n.address pos
        (one-le-pow (n.prefixlen - wrapper_prefix n) 2 (omega arith)) h.aligned in
    let inside =
      subst (λ (z : ℕ). n.address + num_addresses n ≤ n.address / z * z + z)
        (sym (num_addresses-wrapper_of n h.prefix_le)) block in
    record {
      low = div-mul-le_self n.address (num_addresses (wrapper_of n));
      high = omega (arith, inside, pos);
    }

-- Networks with the same print are the same.
pub print_network_injective :
    (a b : Network) → IsNetwork a → IsNetwork b → print_network a ≡ print_network b → a ≡ b
print_network_injective a b ha hb e =
    cc (ip_network-print_network a ha, ip_network-print_network b hb, ap ip_network e)

-- The wrappers found so far are classful networks, and the cache knows members of the set by print.
pub record IsGood (w : Wrappers) : Type 0 where
  pub classful : (c : Network) → In c w.classfulnets → IsNetwork c × IsClassful c
  pub known :
      (k : Text) (c : Network)
      → lookup k w.cache ≡ some c
      → In c w.classfulnets × (print_network c ≡ k)

pub In-add_to_set : (x y : Network) (s : List Network) → In x s → In x (add_to_set y s)
unfolding add_to_set
In-add_to_set x y s i = elim (contains s y) as (λ b. In x (if b then s else s ++ (y ∷ []))) [
  | true ↦ i
  | false ↦ In-append_left x s (y ∷ []) i
]

In-add_to_set_self : (x : Network) (s : List Network) → In x (add_to_set x s)
unfolding add_to_set
In-add_to_set_self x s = elim (Bool-cases (contains s x)) [
  | inl h ↦ rw h (contains→In s x h)
  | inr h ↦ rw h (In-append_right x s (x ∷ []) (here refl))
]

add_to_set-In : (x y : Network) (s : List Network) → In x (add_to_set y s) → In x s ⊎ (x ≡ y)
unfolding add_to_set
add_to_set-In x y s i = go (contains s y) i
  where
    go : (b : Bool) → In x (if b then s else s ++ (y ∷ [])) → In x s ⊎ (x ≡ y)
    go true i = inl i
    go false i = elim (In-append x s (y ∷ []) i) [
      | inl j ↦ inl j
      | inr (here e) ↦ inr e
      | inr (there j) ↦ elim j [ ]
    ]

-- What a step does to the wrappers: they stay good, none is lost, and `c` is among them.
pub record Adds (c : Network) (w w' : Wrappers) : Type 0 where
  pub good : IsGood w'
  pub keeps : (x : Network) → In x w.classfulnets → In x w'.classfulnets
  pub added : In c w'.classfulnets

pub add_known :
    (c : Network) (w : Wrappers) (cache : Dict Text Network)
    → IsGood w
    → IsNetwork c
    → IsClassful c
    → ((k : Text) (x : Network)
        → lookup k cache ≡ some x
        → (lookup k w.cache ≡ some x) ⊎ ((x ≡ c) × (k ≡ print_network c)))
    → Adds c w (record { classfulnets = add_to_set c w.classfulnets; cache = cache })
add_known c w cache g nc cc' known = record {
  good = record {
    classful = λ x i. elim (add_to_set-In x c w.classfulnets i) [
      | inl j ↦ g.classful x j
      | inr e ↦ subst (λ y. IsNetwork y × IsClassful y) (sym e) (nc, cc')
    ];
    known = λ k x e. elim (known k x e) [
      | inl old ↦ let (i, p) = g.known k x old in (In-add_to_set x c w.classfulnets i, p)
      | inr (same, q) ↦ (
        subst (λ y. In y (add_to_set c w.classfulnets)) (sym same)
            (In-add_to_set_self c w.classfulnets),
        ap print_network same ∙ sym q,
      )
    ];
  };
  keeps = λ x i. In-add_to_set x c w.classfulnets i;
  added = In-add_to_set_self c w.classfulnets;
}
