-- ===== src/Tests/Files.antt =====
-- Runs of the names of the reverse zones' files, and of what all of them need to be printed.
use umbrella_linux.Base.{
  ◌≡◌, refl, Option, true, false, List, some, Text, ok, In, here, there, arith, ◌⊎◌, ℕ_discrete,
  nat_eq, text_eq, text_discrete, option_eq,
}
use umbrella_linux.Base.Dict.{lookup, keys}
use umbrella_linux.Text.{codes}
use umbrella_linux.Net.{Network, network_eq}
use umbrella_linux.RevZones.{is_served}
use umbrella_linux.ReverseZones.{ReverseZone, reverse_zones, zone_files, linking_of, served_file}
use umbrella_linux.ReverseZones.Listed.{zone_files-StandsFor}
use umbrella_linux.ReverseZones.Files.{StandsFor}
use umbrella_linux.ReverseZones.Template.{read_setting-reverse_zones}
use umbrella_linux.Tests.Tree.{xml}
use umbrella_linux.Tests.Zones.{config, client, setting, hosts, nets_read, setting_read}

zone_files-StandsFor_example :
    ((n : Network)
      → In n (linking_of setting)
      → (name : Text) × In name (zone_files setting) × StandsFor setting name true n)
    × ((t : Text) (n : Network)
        → In (t, n) setting.networks
        → is_served t ≡ true
        → In (served_file t) (zone_files setting) × StandsFor setting (served_file t) false n)
    × ((name : Text)
        → In name (zone_files setting)
        → ((n : Network) × In n (linking_of setting) × StandsFor setting name true n)
          ⊎ ((t : Text) × (n : Network) × In (t, n) setting.networks
              × (is_served t ≡ true)
              × StandsFor setting name false n))
zone_files-StandsFor_example = zone_files-StandsFor xml config setting nets_read

router_named : lookup (some (codes "router")) hosts.funchosts ≡ some (codes "gw.example.org")
unfolding lookup option_eq text_eq text_discrete ℕ_discrete
router_named = refl

functions_named : (f : Option Text) → In f (keys hosts.funchosts) → (name : Text) × (f ≡ some name)
functions_named f (here e) = (codes "router", e)
functions_named f (there (here e)) = (codes "config", e)
functions_named f (there (there (here e))) = (codes "proxy", e)
functions_named f (there (there (there i))) = elim i [ ]

read_setting-reverse_zones_example :
    (printed : List ReverseZone) × (reverse_zones setting ≡ ok printed)
read_setting-reverse_zones_example =
    read_setting-reverse_zones xml client config (codes "2026010100") setting
      (codes "gw.example.org") setting_read (omega arith, (omega arith, (omega arith, tt)))
      router_named functions_named
