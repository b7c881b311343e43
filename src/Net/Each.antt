-- ===== src/Net/Each.antt =====
-- The addresses of a network, one by one.
use umbrella_linux.Base.{
  ℕ, zero, suc, ◌+◌, ◌≤◌, ◌<◌, ◌≡◌, ◌↔◌, true, List, [], ◌∷◌, arith, nat_eq, inl, inr, In, here,
  there, In-cons,
}
use umbrella_linux.Net.{Network, IsNetwork, num_addresses, has_address}
use umbrella_linux.Net.Range.{has_address_iff, num_addresses-pos}

-- The numbers from `a` on.
unfoldable pub count_up : ℕ → ℕ → List ℕ
count_up zero a = []
count_up (suc left) a = a ∷ count_up left (a + 1)

-- The addresses of a network, in ascending order.
unfoldable pub addresses : Network → List ℕ
addresses n = count_up (num_addresses n) n.address

pub In-count_up : (x left a : ℕ) → In x (count_up left a) ↔ ((a ≤ x) × (x < a + left))
unfolding count_up
In-count_up x zero a = (λ i. elim i [ ], λ (low, high). absurd (omega arith))
In-count_up x (suc left) a = (
  λ i. elim (In-cons x a (count_up left (a + 1)) i) [
    | inl e ↦ (omega arith, omega arith)
    | inr j ↦ let (low, high) = (In-count_up x left (a + 1)).0 j in (omega arith, omega arith)
  ],
  λ (low, high). elim (nat_eq.dec x a) [
    | yes e ↦ here e
    | no other ↦ there ((In-count_up x left (a + 1)).1 (omega arith, omega arith))
  ],
)

pub In-addresses :
    (n : Network) (x : ℕ) → IsNetwork n → In x (addresses n) ↔ (has_address n x ≡ true)
unfolding addresses
In-addresses n x v =
    let range = has_address_iff n x v in
    let counted = In-count_up x (num_addresses n) n.address in
    let pos = num_addresses-pos n in
    (
      λ i. (let r = counted.0 i in range.1 (r.0, omega arith)),
      λ h. (let r = range.0 h in counted.1 (r.0, omega arith)),
    )
