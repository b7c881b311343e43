-- ===== src/Tests/Notified.antt =====
-- Runs of the list of transfers.
use umbrella_linux.Base.{
  ◌≡◌, refl, ◌↔◌, ◌⊎◌, List, [], ◌∷◌, some, Text, ok, In, nat_eq, text_eq, option_eq, ℕ_discrete,
  text_discrete,
}
use umbrella_linux.Base.Dict.{lookup}
use umbrella_linux.Text.{codes, split}
use umbrella_linux.BaseParams.{DomainLists}
use umbrella_linux.Net.{ip_address, ip_network, strict_network, has_address}
use umbrella_linux.Transfers.{entries, transfers, transfer_line}
use umbrella_linux.Transfers.Allowed.{IsCovered, transfers_iff}

-- 10.0.0.1 is in the network that may transfer the domain, 10.9.0.1 is not.
abbrev lists : DomainLists
lists = record {
  domain_names = some (codes "example.org") ∷ [];
  domain_notifies = (some (codes "example.org"), codes "10.0.0.1" ∷ codes "10.9.0.1" ∷ []) ∷ [];
  domain_axfr = (some (codes "example.org"), codes "10.0.0.0/24" ∷ []) ∷ [];
}

abbrev served : List Text
served = codes "10.0.0.0/24" ∷ codes "10.9.0.1" ∷ []

transfers_made : transfers lists (some (codes "example.org")) ≡ ok served
unfolding transfers ip_address ip_network strict_network has_address split lookup option_eq text_eq
    text_discrete nat_eq ℕ_discrete
transfers_made = refl

line_printed : transfer_line served ≡ codes "    allow-transfer { 10.0.0.0/24; 10.9.0.1; };\n"
unfolding transfer_line
line_printed = refl

transfers_iff_example : In (codes "10.9.0.1") served ↔ (
    In (codes "10.9.0.1") (entries (some (codes "example.org")) lists.domain_axfr)
    ⊎ (In (codes "10.9.0.1") (entries (some (codes "example.org")) lists.domain_notifies)
        × (¬ IsCovered
            (entries (some (codes "example.org")) lists.domain_axfr)
            (codes "10.9.0.1"))))
transfers_iff_example =
    transfers_iff lists (some (codes "example.org")) served (codes "10.9.0.1") transfers_made
