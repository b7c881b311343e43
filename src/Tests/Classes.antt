-- ===== src/Tests/Classes.antt =====
-- Runs of the script that tells the class of an address.
use umbrella_linux.Base.{
  ◌≡◌, ◌≢◌, ℕ, Bool, not, ◌&&◌, ◌==◌, ==_iff, Bool-cases, inl, inr, arith, All, Result, refl, true,
  false, ◌||◌, ◌⊎◌, [], ◌∷◌, Text, ok, err, attribute_error, In, nat_eq, text_eq, ℕ_discrete,
  text_discrete,
}
use umbrella_linux.Base.Dict.{Dict, keys, lookup, insert}
use umbrella_linux.Text.{codes, split, decimal, join}
use umbrella_linux.Text.Keyed.{sorted_by}
use umbrella_linux.Text.Order.{text_leb}
use umbrella_linux.Xml.{find_text, child_text}
use umbrella_linux.Net.{
  Network, network_eq, network_discrete, ip_address, ip_network, strict_network, has_address,
  print_address, print_network,
}
use umbrella_linux.Networks.{read_networks}
use umbrella_linux.Organization.{read_netclasses, unit_network, unit_profile, note_network}
use umbrella_linux.Ipclass.{Script, render, read_classes, ipclass, tells}
use umbrella_linux.Ipclass.Classes.{HasInterface, Does}
use umbrella_linux.Ipclass.Told.{IsNetOf, IsPlain, printed_texts, ipclass-Tells}
use umbrella_linux.Tests.Tree.{Xml, xml, leaf, branch, empty, root_of, named, iter_any_named}

abbrev config : Xml
config = root_of (
    leaf (codes "pubnet") (codes "10.0.0.0/29") (
      leaf (codes "secnet") (codes "10.1.0.0/16") (
        leaf (codes "DMZnet") (codes "192.168.1.0/24") (
          branch (codes "server")
            (leaf (codes "function") (codes "router")
              (branch (codes "pubif") (leaf (codes "ip") (codes "10.0.0.1") empty) empty))
            empty))))

-- A unit with a network of its own.
abbrev units : Xml
units = root_of (
    branch (codes "ou")
      (leaf (codes "network") (codes "10.2.0.0/16")
        (leaf (codes "bcfg2_profile") (codes "laboratory") empty))
      empty)

abbrev script : Script
script = record {
  pubnet = codes "10.0.0.0/29";
  secnet = codes "10.1.0.0/16";
  ipclasses = (codes "10.0.0.1", codes "router") ∷ [];
  netclasses = (codes "10.2.0.0/16", codes "laboratory") ∷ [];
}

-- Python, for a source with plain texts only.
abbrev as_read : Script → Result Script
as_read printed = ok printed

plain_char : ℕ → Bool
plain_char c = not (c == b'\'' || c == b'\\' || c == 10 || c == 13)

plain_chars : Text → Bool
unfolding plain_char
plain_chars [] = true
plain_chars (c ∷ s) = plain_char c && plain_chars s

plain_char-ne : (c : ℕ) → plain_char c ≡ true → (c ≢ b'\'') × (c ≢ b'\\') × (c ≢ 10) × (c ≢ 13)
unfolding plain_char
plain_char-ne c h = (
  λ e. ground (arith, ==_iff c b'\''),
  λ e. ground (arith, ==_iff c b'\\'),
  λ e. ground (arith, ==_iff c 10),
  λ e. ground (arith, ==_iff c 13),
)

plain_chars-IsPlain : (s : Text) → plain_chars s ≡ true → IsPlain s
unfolding plain_chars
plain_chars-IsPlain [] h = tt
plain_chars-IsPlain (c ∷ s) h = elim (Bool-cases (plain_char c)) [
  | inl plain ↦ (plain_char-ne c plain, plain_chars-IsPlain s (rw plain at h))
  | inr special ↦ absurd (cc (rw special at h))
]

script-IsPlain : All IsPlain (printed_texts script)
unfolding plain_chars nat_eq
script-IsPlain = (
  plain_chars-IsPlain (codes "10.0.0.0/29") refl,
  (
    plain_chars-IsPlain (codes "10.1.0.0/16") refl,
    (
      plain_chars-IsPlain (codes "10.0.0.1") refl,
      (
        plain_chars-IsPlain (codes "router") refl,
        (
          plain_chars-IsPlain (codes "10.2.0.0/16") refl,
          (plain_chars-IsPlain (codes "laboratory") refl, tt),
        ),
      ),
    ),
  ),
)

rendered : render xml 10 config units ≡ ok script
unfolding render read_networks named text_eq ip_network split nat_eq ip_address strict_network
    read_netclasses unit_network read_classes iter_any_named insert sorted_by note_network
    print_network unit_profile print_address child_text text_discrete ℕ_discrete find_text join
    decimal text_leb network_eq network_discrete
rendered = refl

router_told : ipclass as_read script (codes "10.0.0.1" ∷ []) ≡ ok (tells (codes "router"))
unfolding ipclass ip_network split nat_eq ip_address strict_network lookup text_eq print_address
    join decimal has_address text_discrete ℕ_discrete
router_told = refl

workstation_told : ipclass as_read script (codes "10.1.0.1" ∷ []) ≡ ok (tells (codes "workstation"))
unfolding ipclass ip_network split nat_eq ip_address strict_network lookup text_eq print_address
    join decimal has_address text_discrete ℕ_discrete
workstation_told = refl

-- The profile of the unit is not told.
laboratory_raises : ipclass as_read script (codes "10.2.0.1" ∷ []) ≡ err attribute_error
unfolding ipclass ip_network split nat_eq ip_address strict_network lookup text_eq print_address
    join decimal has_address text_discrete ℕ_discrete
laboratory_raises = refl

laboratory_is : ip_address (codes "10.2.0.1") ≡ ok 167903233
unfolding ip_address split nat_eq ℕ_discrete
laboratory_is = refl

ipclass-Tells_example :
    (networks : Dict Text Network) × (pubnet : Network) × (secnet : Network) × (read_networks xml
        config
      ≡ ok networks)
    × IsNetOf xml config (codes "pubnet") pubnet
    × IsNetOf xml config (codes "secnet") secnet
    × (((server : Xml) × (class : Text) × In server (xml.findall config (codes "server"))
          × HasInterface xml (print_address 167903233) (keys networks) server
          × Does xml server class
          × (ipclass as_read script (codes "10.2.0.1" ∷ []) ≡ ok (tells class)))
        ⊎ (((server : Xml)
              → In server (xml.findall config (codes "server"))
              → ¬ HasInterface xml (print_address 167903233) (keys networks) server)
            × (((has_address pubnet 167903233 || has_address secnet 167903233) ≡ true)
                  × (ipclass as_read script (codes "10.2.0.1" ∷ [])
                      ≡ ok (tells (codes "workstation")))
                ⊎ ((has_address pubnet 167903233 || has_address secnet 167903233) ≡ false)
                  × (ipclass as_read script (codes "10.2.0.1" ∷ []) ≡ err attribute_error))))
ipclass-Tells_example =
    ipclass-Tells as_read xml 10 config units script (codes "10.2.0.1") 167903233 rendered
      (λ printed plain. refl) script-IsPlain laboratory_is
