-- ===== src/Networks/Coverage.antt =====
-- `cleanup_fully_contained` keeps the maximal networks, and they have all the addresses.
use umbrella_linux.Base.{
  ℕ, zero, suc, ◌<◌, ◌≡◌, ◌≢◌, ◌↔◌, true, false, not, List, arith, inl, inr, In, Distinct, In-keep,
  keep-In, contains, contains→In, In→contains, All, All-In, Bool-cases,
}
use umbrella_linux.Net.{Network, network_eq, IsNetwork, has_address}
use umbrella_linux.Networks.{is_subnet_of, contained_nets, cleanup_fully_contained}
use umbrella_linux.Networks.Subnet.{
  Within, is_subnet_of→Within, Within→is_subnet_of, Within-refl, Within-trans, Within-prefixlen,
  is_subnet_of_iff,
}
use umbrella_linux.Networks.Cleanup.{contained_nets-In, In-contained_nets}

-- In a set, which has no network twice, a network is kept exactly if it is in the set and lies
-- in no other network of the set.
pub In-cleanup_iff :
    (nets : List Network) (x : Network)
    → Distinct nets
    → In x (cleanup_fully_contained nets)
      ↔ (In x nets × ((m : Network) → In m nets → x ≢ m → is_subnet_of x m ≡ false))
unfolding cleanup_fully_contained
In-cleanup_iff nets x u = (
  λ h.
      let (i, kept) = keep-In (λ n. not (contains (contained_nets nets) n)) x nets h in
      (
        i,
        λ m j differ. elim (Bool-cases (is_subnet_of x m)) [
          | inl s ↦ absurd (
              cc (
                kept,
                In→contains (contained_nets nets) x (In-contained_nets nets x m i j differ s),
              ))
          | inr s ↦ s
        ],
      ),
  λ (i, alone).
      In-keep (λ n. not (contains (contained_nets nets) n)) x nets i
        (elim (Bool-cases (contains (contained_nets nets) x)) [
          | inl c ↦
              let (m, j, differ, s) =
                contained_nets-In nets x u (contains→In (contained_nets nets) x c) in
              absurd (cc (s, alone m j differ))
          | inr c ↦ rw c
        ]),
)

-- Each network lies in one that is kept: climb to a larger one until none is left.
kept_above :
    (fuel : ℕ) (nets : List Network) (n : Network)
    → All IsNetwork nets
    → Distinct nets
    → In n nets
    → n.prefixlen < fuel
    → (k : Network) × In k (cleanup_fully_contained nets) × Within n k
kept_above zero nets n valid u i h = absurd (omega arith)
kept_above (suc fuel) nets n valid u i h = elim (Bool-cases (contains (contained_nets nets) n)) [
  | inl c ↦
      let (m, j, differ, s) = contained_nets-In nets n u (contains→In (contained_nets nets) n c) in
      let within = is_subnet_of→Within n m s in
      let shorter =
        Within-prefixlen n m (All-In IsNetwork nets valid n i) (All-In IsNetwork nets valid m j)
          within differ in
      let (k, kept, above) = kept_above fuel nets m valid u j (omega (arith, shorter)) in
      (k, kept, Within-trans within above)
  | inr c ↦ (
    n,
    unfold cleanup_fully_contained in
        In-keep (λ x. not (contains (contained_nets nets) x)) n nets i (rw c),
    Within-refl n,
  )
]

-- In a set of well-formed networks no address is lost: one that is in some network of the set is
-- in some network that is kept.
pub cleanup_covers :
    (nets : List Network) (n : Network) (a : ℕ)
    → All IsNetwork nets
    → Distinct nets
    → In n nets
    → has_address n a ≡ true
    → (k : Network) × In k (cleanup_fully_contained nets) × (has_address k a ≡ true)
cleanup_covers nets n a valid u i h =
    let (k, kept, within) = kept_above (suc n.prefixlen) nets n valid u i (omega arith) in
    (
      k,
      kept,
      (is_subnet_of_iff n k (All-In IsNetwork nets valid n i)
            (All-In IsNetwork nets valid k ((In-cleanup_iff nets k u).0 kept).0)).0
          (Within→is_subnet_of n k within) a h,
    )
