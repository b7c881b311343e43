-- ===== src/ReverseZones/Delegated.antt =====
-- The linking zones: what they hold for a network of the system, and when they can be printed.
use umbrella_linux.Base.{
  ℕ, zero, suc, ◌+◌, ◌<◌, ◌≡◌, ◌≢◌, refl, true, not, ◌&&◌, List, ◌∷◌, ◌++◌, Text, ok, In, there,
  arith, drop, ◌==◌, ==_iff, nat_eq, map_result, after_known, ok-injective, ap, subst,
}
use mathlib.Core.List.{flatten}
use umbrella_linux.Base.Dict.{values}
use umbrella_linux.Base.Places.{In-map, In-flatten, map_result-In}
use umbrella_linux.Text.Keyed.{sorted_by, In-sorted_by}
use umbrella_linux.Net.{Network, network_eq, num_addresses, broadcast_address, print_network}
use umbrella_linux.Net.Each.{addresses, count_up, In-count_up}
use umbrella_linux.Networks.{is_subnet_of}
use umbrella_linux.RevZones.{classless_short_name, host_rev_ip}
use umbrella_linux.ReverseZones.{
  Setting, Record, cname, drop_last, inner_addresses, delegation, delegations,
}

drop_last-count_up : (k a : ℕ) → drop_last (count_up (suc k) a) ≡ count_up k a
unfolding drop_last count_up
drop_last-count_up zero a = refl
drop_last-count_up (suc k) a = ap (λ l. a ∷ l) (drop_last-count_up k (a + 1))

-- The numbers behind the first one and before the last one.
inner_count_up : (k a x : ℕ) → a < x → x + 1 < a + k → In x (drop_last (drop 1 (count_up k a)))
inner_count_up zero a x low high = absurd (omega arith)
inner_count_up (suc zero) a x low high = absurd (omega arith)
inner_count_up (suc (suc k)) a x low high =
    let cut : drop_last (drop 1 (count_up (suc (suc k)) a)) ≡ count_up k (a + 1) =
      (unfold count_up in drop_last-count_up k (a + 1)) in
    rw cut ((In-count_up x k (a + 1)).1 (omega arith, omega arith))

-- The addresses between the first and the last one of a network.
abbrev pub IsInner : Network → ℕ → Type 0
IsInner n a = (n.address < a) × (a < broadcast_address n)

pub In-inner_addresses : (n : Network) (a : ℕ) → IsInner n a → In a (inner_addresses n)
unfolding inner_addresses addresses
In-inner_addresses n a (low, high) = inner_count_up (num_addresses n) n.address a low (omega arith)

module _ (s : Setting) (net netc n : Network) (router : Text) where
  -- The lines for a network that lies in the zone's network and is another one.
  delegation-cname :
      (a : ℕ) (records : List Record)
      → is_subnet_of n net ≡ true
      → n ≢ net
      → IsInner n a
      → delegation net netc router n ≡ ok records
      → (short : Text) × (classless_short_name n net ≡ ok short)
        × In (cname (host_rev_ip a netc) (host_rev_ip a n ++ (b'.' ∷ short))) records
  unfolding delegation
  delegation-cname a records inside other inner h =
      let tested : (is_subnet_of n net && not (n == net)) ≡ true = ground (arith, ==_iff n net) in
      after_known (classless_short_name n net) _ records
        (λ short named made. (
          short,
          named,
          subst (In (cname (host_rev_ip a netc) (host_rev_ip a n ++ (b'.' ∷ short))))
              (ok-injective _ records made)
              (there (
                In-map
                  (λ (ip : ℕ). cname (host_rev_ip ip netc) (host_rev_ip ip n ++ (b'.' ∷ short))) a
                  (inner_addresses n) (In-inner_addresses n a inner))),
        ))
        (rw tested at h)

  -- A linking zone has a CNAME for each inner address of a network of the system in it.
  pub delegations-cname :
      (a : ℕ) (records : List Record)
      → In n (values s.networks)
      → is_subnet_of n net ≡ true
      → n ≢ net
      → IsInner n a
      → delegations s net netc router ≡ ok records
      → (short : Text) × (classless_short_name n net ≡ ok short)
        × In (cname (host_rev_ip a netc) (host_rev_ip a n ++ (b'.' ∷ short))) records
  unfolding delegations
  delegations-cname a records i inside other inner h =
      let all = sorted_by print_network (values s.networks) in
      after_known (map_result (delegation net netc router) all) _ records
        (λ parts mapped made.
          let (own, at, member) =
            map_result-In (delegation net netc router) n all parts mapped
              (In-sorted_by print_network n (values s.networks) i) in
          let (short, named, j) = delegation-cname a own inside other inner at in
          (
            short,
            named,
            subst (In (cname (host_rev_ip a netc) (host_rev_ip a n ++ (b'.' ∷ short))))
                (ok-injective (flatten parts) records made) (In-flatten _ own parts member j),
          ))
        h
