-- ===== src/Networks/Checks.antt =====
-- What the checks of 20_networks.py guarantee.
use umbrella_linux.Base.{
  ℕ, ◌≤◌, ◌≡◌, refl, List, [], ◌∷◌, ◌++◌, Option, none, some, arith, Text, Result, ok, err,
  template_error, map_result, fold_result, keep, ◌>>=◌, >>=-eq-ok, subst, text_eq,
}
use umbrella_linux.Base.Dict.{Dict}
use umbrella_linux.Text.{codes}
use umbrella_linux.Net.{Network, ip_address, has_address, has_network}
use umbrella_linux.Xml.{Dom}
use umbrella_linux.Networks.{
  check_against, check_all, check_intersections, read_dhcp, choose_address, read_ip_addr,
}

check_against-ok :
    (t : Text) (n : Network) (nets : Dict Text Network) → check_against t n nets ≡ ok tt
unfolding check_against has_network
check_against-ok t n [] = refl
check_against-ok t n ((t', n') ∷ nets) = ground (arith, check_against-ok t n nets)

check_all-ok : (all nets : Dict Text Network) → check_all all nets ≡ ok tt
unfolding check_all
check_all-ok all [] = refl
check_all-ok all ((t, n) ∷ nets) = rw (check_against-ok t n all) (check_all-ok all nets)

-- The check raises for no configuration, since `in` is False between networks.
pub check_intersections-ok : (nets : Dict Text Network) → check_intersections nets ≡ ok tt
unfolding check_intersections
check_intersections-ok nets = check_all-ok nets nets

-- An accepted DHCP range does not end before it starts.
pub read_dhcp_ordered :
    (d : Dom) (root : d.Element) (start end : ℕ)
    → read_dhcp d root ≡ ok (some (start, end))
    → start ≤ end
unfolding read_dhcp
read_dhcp_ordered d root start end h = ground arith

-- Which of the addresses lie in the public network, read as the address of the host.
abbrev pub address_in_public : Text → List ℕ → Result (Option ℕ)
address_in_public hostname [] = ok none
address_in_public hostname (a ∷ []) = ok (some a)
address_in_public hostname (a ∷ b ∷ more) =
    err
      (template_error (codes "Multiple addresses in public network for " ++ hostname ++ codes "."))

-- The addresses found before, and those found in the rest of the list.
abbrev with_found : Option ℕ → List ℕ → List ℕ
with_found none l = l
with_found (some a) l = a ∷ l

choose_step :
    (hostname : Text) (public : Network) (t : Text) (l : List Text) (a : ℕ) (more : List ℕ)
    (found : Option ℕ)
    → ip_address t ≡ ok a
    → fold_result (choose_address hostname public) found l
      ≡ address_in_public hostname (with_found found (keep (has_address public) more))
    → fold_result (choose_address hostname public) (some a) l
      ≡ address_in_public hostname (a ∷ keep (has_address public) more)
    → fold_result (choose_address hostname public) found (t ∷ l)
      ≡ address_in_public hostname (with_found found (keep (has_address public) (a ∷ more)))
unfolding choose_address
choose_step hostname public t l a more none read same one = ground arith
choose_step hostname public t l a more (some b) read same one = ground arith

-- Once a second address is found, the rest of the list does not matter.
choose_all :
    (hostname : Text) (public : Network) (l : List Text) (addrs : List ℕ) (found : Option ℕ)
    → map_result ip_address l ≡ ok addrs
    → fold_result (choose_address hostname public) found l
      ≡ address_in_public hostname (with_found found (keep (has_address public) addrs))
unfolding choose_address
choose_all hostname public [] addrs found h = ground arith
choose_all hostname public (t ∷ l) addrs found h =
    let (a, read, rest) = >>=-eq-ok (ip_address t) _ h in
    let (more, read_more, e) = >>=-eq-ok (map_result ip_address l) _ rest in
    let same = choose_all hostname public l more found read_more in
    let one = choose_all hostname public l more (some a) read_more in
    subst
      (λ r. fold_result (choose_address hostname public) found (t ∷ l) ≡ (
        r >>= λ xs. address_in_public hostname (with_found found (keep (has_address public) xs))))
      e (choose_step hostname public t l a more found read same one)

-- A host with several addresses, all of them well formed, gets the one that lies in the public
-- network, no address if none does, and an error if several do.
pub read_ip_addr_several :
    (gethostbyname : Text → Option Text) (hostname : Text) (public : Network) (s t : Text)
    (l : List Text) (addrs : List ℕ)
    → map_result ip_address (s ∷ t ∷ l) ≡ ok addrs
    → read_ip_addr gethostbyname hostname public (some (s ∷ t ∷ l))
      ≡ address_in_public hostname (keep (has_address public) addrs)
unfolding read_ip_addr
read_ip_addr_several gethostbyname hostname public s t l addrs h =
    choose_all hostname public (s ∷ t ∷ l) addrs none h
