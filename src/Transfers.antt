-- ===== src/Transfers.antt =====
-- Cfg/etc/bind/named.conf.local/named.conf.local.genshi: who may transfer a zone that the name server in
-- the DMZ is the master of, and who is notified of its changes.
pub mod Allowed
use umbrella_linux.Base.{
  Bool, true, false, List, [], ◌∷◌, ◌++◌, Option, none, some, Text, text_eq, option_eq, Result, ok,
  fold_result, if◌then◌else◌, ◌>>=◌,
}
use umbrella_linux.Base.Dict.{Dict, lookup}
use umbrella_linux.Text.{codes}
use umbrella_linux.BaseParams.{DomainLists}
use umbrella_linux.Net.{ip_address, ip_network, has_address}

-- `allowed` after a network: `or` does not look at the network of an address that is allowed already.
unfoldable pub note_network : Text → Bool → Text → Result Bool
note_network addr allowed net =
    if allowed
    then ok true
    else (do ip ← ip_address addr; n ← ip_network net; ok (has_address n ip))

-- One round of the loop over the addresses that are notified.
unfoldable pub note_address : List Text → List Text → Text → Result (List Text)
unfolding note_network
note_address nets notallowed addr = do
  allowed ← fold_result (note_network addr) false nets
  ok (if allowed then notallowed else notallowed ++ (addr ∷ []))

-- `domain_AXFR[name]` or `domain_notifies[name]`, where it is there.
abbrev pub entries : Option Text → Dict (Option Text) (List Text) → List Text
entries name lists = elim (lookup name lists) [ none ↦ [] | some l ↦ l ]

-- `notallowed`: the networks of the domain, then the addresses that none of them has.
unfoldable pub transfers : DomainLists → Option Text → Result (List Text)
unfolding note_address
transfers lists name =
    fold_result (note_address (entries name lists.domain_axfr)) (entries name lists.domain_axfr)
      (entries name lists.domain_notifies)

-- The line that the template prints: none for an empty list.
join_entries : List Text → Text
join_entries [] = []
join_entries (x ∷ []) = x
join_entries (x ∷ y ∷ l) = x ++ codes "; " ++ join_entries (y ∷ l)

unfoldable pub transfer_line : List Text → Text
unfolding join_entries
transfer_line [] = []
transfer_line (x ∷ l) =
    codes "    allow-transfer { " ++ join_entries (x ∷ l) ++ codes "; " ++ codes "};\n"
