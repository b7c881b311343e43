-- ===== src/RevZones/Names.antt =====
-- The names of hosts in reverse zones.
use mathlib.Core.Path.{ap₂}
use umbrella_linux.Base.{
  ℕ, zero, suc, ◌*◌, ◌/◌, ◌%◌, ◌^◌, ◌≤◌, ◌<◌, ◌≡◌, ◌≢◌, refl, ◌⊎◌, inl, inr, Bool-cases, sym, ◌∙◌,
  ap, subst, true, List, [], ◌∷◌, ◌++◌, arith, Text, ok, ok-injective, false, ◌==◌, reverse, take,
  drop, take-append-drop, ==_refl, ==_iff, nat_eq,
}
use mathlib.Core.List.{append_assoc, reverse-append}
use umbrella_linux.Text.{codes, split, join, join-append, decimal}
use umbrella_linux.Net.{Network, network_eq, print_address, octet_texts, has_address, masked}
use umbrella_linux.Net.Print.{split-print_address}
use umbrella_linux.RevZones.{
  back_from, back_to, classful_parts, network_zone_name, host_rev_ip, classless_short_name,
}
use umbrella_linux.RevZones.Wrapping.{IsClassful}

abbrev pub arpa : List Text
arpa = codes "in-addr" ∷ codes "arpa" ∷ []

-- The name under which the DNS looks an address up: its octets backwards, then in-addr.arpa.
abbrev pub reverse_name : ℕ → Text
reverse_name a = join b'.' (reverse (octet_texts a) ++ arpa)

-- The addresses of a network share its first octets.
same_octets :
    (k n a : ℕ)
    → 0 < k
    → k < 4
    → masked (8 * k) a ≡ n
    → take k (octet_texts n) ≡ take k (octet_texts a)
unfolding octet_texts
same_octets zero n a low high h = absurd (omega arith)
same_octets (suc zero) n a low high h = ap (λ (x : ℕ). decimal x ∷ []) (omega arith)
same_octets (suc (suc zero)) n a low high h =
    ap₂ (λ (x y : ℕ). decimal x ∷ decimal y ∷ []) (omega arith) (omega arith)
same_octets (suc (suc (suc zero))) n a low high h =
    let x : n / 2 ^ 24 ≡ a / 2 ^ 24 = omega arith in
    let y : n / 2 ^ 16 % 256 ≡ a / 2 ^ 16 % 256 = omega arith in
    let z : n / 2 ^ 8 % 256 ≡ a / 2 ^ 8 % 256 = omega arith in
    λ i. decimal (x i) ∷ decimal (y i) ∷ decimal (z i) ∷ []
same_octets (suc (suc (suc (suc k)))) n a low high h = absurd (omega arith)

back_to_pos : (k : ℕ) (l : List Text) → 0 < k → back_to k l ≡ reverse (drop k l)
unfolding back_to
back_to_pos k l h = ground arith

back_from_pos : (k : ℕ) (l : List Text) → 0 < k → back_from k l ≡ reverse (take k l)
unfolding back_from
back_from_pos k l h = ground arith

rest-ne-nil : (k a : ℕ) → k < 4 → reverse (drop k (octet_texts a)) ≢ []
unfolding octet_texts
rest-ne-nil zero a h e = cc
rest-ne-nil (suc zero) a h e = cc
rest-ne-nil (suc (suc zero)) a h e = cc
rest-ne-nil (suc (suc (suc zero))) a h e = cc
rest-ne-nil (suc (suc (suc (suc k)))) a h e = absurd (omega arith)

append_arpa-ne-nil : (l : List Text) → l ++ arpa ≢ []
append_arpa-ne-nil [] e = cc
append_arpa-ne-nil (x ∷ l) e = cc

-- The last octets backwards, and behind them the first ones backwards, are all of them backwards.
name_parts :
    (k n a : ℕ)
    → 0 < k
    → k < 4
    → take k (octet_texts n) ≡ take k (octet_texts a)
    → join b'.' (back_to k (octet_texts a))
        ++ (b'.' ∷ join b'.' (back_from k (octet_texts n) ++ arpa))
      ≡ reverse_name a
name_parts k n a low high e =
    let last = reverse (drop k (octet_texts a)) in
    let first = reverse (take k (octet_texts a)) in
    let whole : reverse (octet_texts a) ≡ last ++ first =
      ap reverse (sym (take-append-drop k (octet_texts a)))
      ∙ reverse-append (take k (octet_texts a)) (drop k (octet_texts a)) in
    rw (back_to_pos k (octet_texts a) low, back_from_pos k (octet_texts n) low, e, whole)
      (sym (join-append b'.' last (first ++ arpa) (rest-ne-nil k a high) (append_arpa-ne-nil first))
        ∙ ap (join b'.') (sym (append_assoc last first arpa)))

masked_of_has_address :
    (c : Network) (a : ℕ) → has_address c a ≡ true → masked c.prefixlen a ≡ c.address
unfolding has_address
masked_of_has_address c a h = (==_iff _ _).0 h

-- In a network of one, two or three whole octets, the name of an address of it in its zone, a
-- dot and the name of the zone spell the name under which the DNS looks the address up.
pub host_rev_ip-network_zone_name :
    (c : Network) (a : ℕ)
    → IsClassful c
    → 8 ≤ c.prefixlen
    → c.prefixlen < 32
    → has_address c a ≡ true
    → (zone : Text) × (network_zone_name c c ≡ ok zone)
      × (host_rev_ip a c ++ (b'.' ∷ zone) ≡ reverse_name a)
host_rev_ip-network_zone_name c a whole low high h =
    let k = c.prefixlen / 8 in
    let prefix : c.prefixlen ≡ 8 * k = omega (arith, whole) in
    let at : masked c.prefixlen a ≡ c.address = masked_of_has_address c a h in
    let same =
      same_octets k c.address a (omega (arith, low)) (omega (arith, high))
        (subst (λ (p : ℕ). masked p a ≡ c.address) prefix at) in
    (
      join b'.' (classful_parts c),
      (unfold network_zone_name in rw (==_refl c)),
      (unfold host_rev_ip classful_parts in
          rw (split-print_address a, split-print_address c.address)
            (name_parts k c.address a (omega (arith, low)) (omega (arith, high)) same)),
    )

classful_parts-ne-nil : (nc : Network) → classful_parts nc ≢ []
unfolding classful_parts
classful_parts-ne-nil nc =
    append_arpa-ne-nil (back_from (nc.prefixlen / 8) (split b'.' (print_address nc.address)))

-- The name of a classless network's zone is its short name in the zone around it.
pub network_zone_name-classless_short_name :
    (n nc : Network) (short zone around : Text)
    → n ≢ nc
    → classless_short_name n nc ≡ ok short
    → network_zone_name n nc ≡ ok zone
    → network_zone_name nc nc ≡ ok around
    → zone ≡ short ++ (b'.' ∷ around)
unfolding network_zone_name join
network_zone_name-classless_short_name n nc short zone around other named inner outer =
    let outside : (nc == n) ≡ false = ground (arith, ==_iff nc n) in
    let here_name : around ≡ join b'.' (classful_parts nc) =
      sym (ok-injective _ around (rw (==_refl nc) at outer)) in
    let there_name : zone ≡ join b'.' (short ∷ classful_parts nc) =
      sym (ok-injective _ zone (rw (outside, named) at inner)) in
    there_name
    ∙ join-append b'.' (short ∷ []) (classful_parts nc) (cc) (classful_parts-ne-nil nc)
    ∙ ap (λ z. short ++ (b'.' ∷ z)) (sym here_name)

-- The name of a zone is made if the short name is.
pub network_zone_name_total :
    (n nc : Network)
    → (n ≡ nc) ⊎ ((short : Text) × (classless_short_name n nc ≡ ok short))
    → (zone : Text) × (network_zone_name n nc ≡ ok zone)
unfolding network_zone_name
network_zone_name_total n nc (inl e) =
    let same : (nc == n) ≡ true = (==_iff nc n).1 (sym e) in rw same (_, refl)
network_zone_name_total n nc (inr (short, named)) = elim (Bool-cases (nc == n)) [
  | inl same ↦ rw same (_, refl)
  | inr other ↦ rw (other, named) (_, refl)
]
