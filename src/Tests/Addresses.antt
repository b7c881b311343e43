-- ===== src/Tests/Addresses.antt =====
-- Runs of the networks, the reverse zones and the printing of addresses.
use umbrella_linux.Base.{
  ◌≡◌, ◌≢◌, refl, ◌↔◌, true, false, List, [], ◌∷◌, none, some, Text, arith, In, here, there,
  Distinct, ok, keep, map_result, nat_eq, text_eq, ℕ_discrete, ap,
}
use umbrella_linux.Base.Dict.{Dict}
use umbrella_linux.Text.{codes, split}
use umbrella_linux.Interfaces.{pubif, dmz_if}
use umbrella_linux.Net.{
  Network, IsNetwork, network_eq, has_address, print_address, print_network, ip_address, ip_network,
}
use umbrella_linux.Net.Print.{ip_address-print_address, ip_network-print_network}
use umbrella_linux.Networks.{is_subnet_of, cleanup_fully_contained, read_ip_addr}
use umbrella_linux.Networks.Coverage.{In-cleanup_iff, cleanup_covers}
use umbrella_linux.Networks.Checks.{read_ip_addr_several, address_in_public}

-- 192.168.0.0/16, 192.168.1.0/24 and 10.20.0.0/14
abbrev wide : Network
wide = record { address = 3232235520; prefixlen = 16 }

abbrev office : Network
office = record { address = 3232235776; prefixlen = 24 }

abbrev dmz : Network
dmz = record { address = 169082880; prefixlen = 14 }

wide-IsNetwork : IsNetwork wide
wide-IsNetwork = record { prefix_le = omega arith; address_lt = omega arith; aligned = refl }

office-IsNetwork : IsNetwork office
office-IsNetwork = record { prefix_le = omega arith; address_lt = omega arith; aligned = refl }

dmz-IsNetwork : IsNetwork dmz
dmz-IsNetwork = record { prefix_le = omega arith; address_lt = omega arith; aligned = refl }

ip_address-print_address_example : ip_address (print_address 3232235777) ≡ ok 3232235777
ip_address-print_address_example = ip_address-print_address 3232235777 (omega arith)

ip_network-print_network_example : ip_network (print_network office) ≡ ok office
ip_network-print_network_example = ip_network-print_network office office-IsNetwork

abbrev nets : List Network
nets = wide ∷ office ∷ []

wide-ne-office : wide ≢ office
wide-ne-office e = let h : wide.address ≡ office.address = ap (λ n. n.address) e in omega arith

nets-Distinct : Distinct nets
nets-Distinct =
    (λ i. elim i [ here e ↦ wide-ne-office e | there j ↦ elim j [ ] ], (λ i. elim i [ ], tt))

In-cleanup_iff_example :
    In office (cleanup_fully_contained nets)
    ↔ (In office nets × ((m : Network) → In m nets → office ≢ m → is_subnet_of office m ≡ false))
In-cleanup_iff_example = In-cleanup_iff nets office nets-Distinct

office_has_host : has_address office 3232235777 ≡ true
unfolding has_address nat_eq ℕ_discrete
office_has_host = refl

cleanup_covers_example :
    (k : Network) × In k (cleanup_fully_contained nets) × (has_address k 3232235777 ≡ true)
cleanup_covers_example =
    cleanup_covers nets office 3232235777 (wide-IsNetwork, (office-IsNetwork, tt)) nets-Distinct
      (there (here refl)) office_has_host

abbrev dict : Dict Text Network
dict = (pubif, office) ∷ (dmz_if, dmz) ∷ []

-- A host with an address in the office and one in the DMZ.
abbrev texts : List Text
texts = codes "192.168.1.1" ∷ codes "10.20.0.5" ∷ []

texts_read : map_result ip_address texts ≡ ok (3232235777 ∷ 169082885 ∷ [])
unfolding ip_address split nat_eq
texts_read = refl

read_ip_addr_several_example :
    read_ip_addr (λ h. none) (codes "h") office (some texts)
    ≡ address_in_public (codes "h") (keep (has_address office) (3232235777 ∷ 169082885 ∷ []))
read_ip_addr_several_example =
    read_ip_addr_several (λ h. none) (codes "h") office (codes "192.168.1.1") (codes "10.20.0.5") []
      (3232235777 ∷ 169082885 ∷ []) texts_read
