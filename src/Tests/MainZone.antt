-- ===== src/Tests/MainZone.antt =====
-- Runs of the zone of the main domain.
use umbrella_linux.Base.{
  ℕ, ◌≡◌, refl, false, inr, List, [], ◌∷◌, some, Text, ok, In, here, there, arith, text_eq,
  option_eq, text_discrete, ℕ_discrete,
}
use umbrella_linux.Base.Dict.{lookup, has_key}
use umbrella_linux.Text.{codes, upper}
use umbrella_linux.Text.Order.{sorted, text_leb}
use umbrella_linux.Interfaces.{pubif}
use umbrella_linux.FuncHosts.{full_name, host_of, has_host}
use umbrella_linux.RevZones.Names.{reverse_name}
use umbrella_linux.ReverseZones.{sorted_functions}
use umbrella_linux.ReverseZones.Resolved.{LeadsTo}
use umbrella_linux.MainZone.{
  Extras, Line, server, origin, address, alias, service, remark, main_lines, config_lines,
  line_text,
}
use umbrella_linux.MainZone.Agreement.{read_setting-target, main_lines-LeadsTo}
use umbrella_linux.Tests.Tree.{xml}
use umbrella_linux.Tests.Zones.{
  config, client, setting, zones, pub_net, around, setting_read, zones_printed, pub_served,
  pub_around, around_foreign, proxy_named, proxy_at, proxy_inside,
}
use mathlib.Core.List.{flatten}

abbrev extras : Extras
extras = record { ip_address = 167772161; forward_ssh_to_ltsp = false; dkim_pubkey = codes "key" }

abbrev lines : List Line
lines =
    server (codes "gw")
    ∷ origin 167772161
    ∷ address (codes "cfg") 167772162
    ∷ alias (codes "autoconfig") (codes "cfg")
    ∷ alias (codes "packages") (codes "cfg")
    ∷ alias (codes "gosa") (codes "cfg")
    ∷ alias (codes "dir") (codes "cfg")
    ∷ alias (codes "wpad") (codes "cfg")
    ∷ alias (codes "kdc1") (codes "cfg")
    ∷ alias (codes "ldap1") (codes "cfg")
    ∷ remark (codes "_kerberos") (codes "EXAMPLE.ORG")
    ∷ service (codes "_wpad._tcp") (codes "0 0 80") (codes "cfg")
    ∷ service (codes "_kerberos._udp") (codes "0 0 88") (codes "cfg")
    ∷ service (codes "_kerberos-master._udp") (codes "0 0 88") (codes "cfg")
    ∷ service (codes "_kerberos-adm._tcp") (codes "0 0 749") (codes "cfg")
    ∷ service (codes "_kpasswd._udp") (codes "0 0 464") (codes "cfg")
    ∷ address (codes "px") 167772163
    ∷ alias (codes "kdc2") (codes "px")
    ∷ alias (codes "ldap2") (codes "px")
    ∷ service (codes "_kerberos._udp") (codes "0 0 88") (codes "px")
    ∷ service (codes "_xmpp-client._tcp") (codes "5 0 5222") (codes "px")
    ∷ address (codes "gw") 167772161
    ∷ alias (codes "ns1") (codes "gw")
    ∷ []

lines_made : main_lines setting extras ≡ ok lines
unfolding main_lines host_of has_host has_key lookup sorted text_leb upper config_lines flatten
    option_eq text_eq text_discrete ℕ_discrete sorted_functions
lines_made = refl

kdc_line :
    line_text (alias (codes "kdc2") (codes "px"))
    ≡ codes "kdc2                                IN CNAME px\n"
unfolding line_text
kdc_line = refl

read_setting-target_example : (a : ℕ) × In (address (codes "cfg") a) lines
read_setting-target_example =
    read_setting-target xml client config (codes "2026010100") setting extras lines
      (alias (codes "autoconfig") (codes "cfg")) (codes "cfg") setting_read lines_made
      (there (there (there (here refl)))) refl

main_lines-LeadsTo_example :
    (short : Text) × (full_name (codes "example.org") short ≡ codes "px.example.org")
    × In (address short 167772163) lines
    × LeadsTo zones (reverse_name 167772163) (codes "px.example.org")
main_lines-LeadsTo_example =
    main_lines-LeadsTo xml client config (codes "2026010100") setting extras lines zones pubif
      pub_net around (some (codes "proxy")) 167772163 (codes "px.example.org") setting_read
      lines_made zones_printed (here refl) pub_served pub_around (omega arith) (omega arith)
      (inr (around_foreign, (omega arith, omega arith))) proxy_named proxy_at proxy_inside
