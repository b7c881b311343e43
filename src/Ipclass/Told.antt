-- ===== src/Ipclass/Told.antt =====
-- What the script answers for an address.
use umbrella_linux.Base.{
  ℕ, ◌≡◌, refl, sym, ◌∙◌, ap, subst, true, false, ◌||◌, ◌⊎◌, inl, inr, List, [], ◌∷◌, ◌++◌, ◌≢◌,
  Result, map, Option, none, some, Text, text_eq, ok, err, attribute_error, In, All, All-In,
  after_known, ok-injective, Option-cases, Bool-cases, map_result,
}
use umbrella_linux.Base.Dict.{Dict, keys, values, lookup}
use umbrella_linux.Base.Places.{map_result_total, map-In}
use umbrella_linux.Text.{codes}
use umbrella_linux.Text.Keyed.{sorted_by, sorted_by-In}
use umbrella_linux.Xml.{Dom, find_text}
use umbrella_linux.Net.{
  Network, IsNetwork, ip_address, ip_network, print_address, print_network, has_address,
}
use umbrella_linux.Net.Print.{ip_network-print_network}
use umbrella_linux.Networks.{read_networks, network_of}
use umbrella_linux.Networks.Read.{read_networks_first, required_net-network_of}
use umbrella_linux.Organization.{read_netclasses}
use umbrella_linux.Organization.Valid.{read_netclasses-AreValid}
use umbrella_linux.Ipclass.{Script, shown, net_line, tells, read_classes, render, classify, ipclass}
use umbrella_linux.Ipclass.Classes.{HasInterface, Does, read_classes_source, read_classes-none}

-- The network that the text of an element stands for.
abbrev pub IsNetOf : (d : Dom) → d.Element → Text → Network → Type 0
IsNetOf d root name n = (t : Text) × (find_text d root name ≡ ok (some t)) × (ip_network t ≡ ok n)

-- A text that means itself between single quotes: no quote, backslash or line end is in it.
abbrev pub IsPlain : Text → Type 0
IsPlain s = All (λ c. (c ≢ b'\'') × (c ≢ b'\\') × (c ≢ 10) × (c ≢ 13)) s

-- The texts that were printed between quotes.
abbrev pub printed_texts : Script → List Text
printed_texts script =
    script.pubnet
    ∷ script.secnet
    ∷ (keys script.ipclasses
        ++ values script.ipclasses
        ++ map (λ (n, _). n) script.netclasses
        ++ map (λ (_, profile). profile) script.netclasses)

-- What Python promises: plain texts are read as they are.
abbrev pub ReadsPlain : (Script → Result Script) → Type 0
ReadsPlain python =
    (script : Script) → All IsPlain (printed_texts script) → python script ≡ ok script

-- What the template printed, if it did.
record IsRendered (d : Dom) (root : d.Element) (script : Script) : Type 0 where
  networks : Dict Text Network
  nets : Dict Network Text
  read : read_networks d root ≡ ok networks
  pubnet : Network
  secnet : Network
  is_pubnet : IsNetOf d root (codes "pubnet") pubnet
  is_secnet : IsNetOf d root (codes "secnet") secnet
  pubnet_read : ip_network script.pubnet ≡ ok pubnet
  secnet_read : ip_network script.secnet ≡ ok secnet
  classes : read_classes d root (keys networks) ≡ ok script.ipclasses
  lines : script.netclasses ≡ map net_line (sorted_by (λ (n, _). print_network n) nets)
  valid : All (λ (n, _). IsNetwork n) nets

-- A text that is read as a network twice.
shown-IsNetOf :
    (d : Dom) (root : d.Element) (name : Text) (t u : Option Text) (n : Network)
    → find_text d root name ≡ ok t
    → find_text d root name ≡ ok u
    → network_of u ≡ ok n
    → IsNetOf d root name n × (ip_network (shown t) ≡ ok n)
shown-IsNetOf d root name t none n h k is = absurd (cc)
shown-IsNetOf d root name t (some u) n h k is =
    let same : t ≡ some u = ok-injective t (some u) (sym h ∙ k) in
    ((u, k, is), ap (λ z. ip_network (shown z)) same ∙ is)

render-IsRendered :
    (d : Dom) (limit : ℕ) (root organization : d.Element) (script : Script)
    → render d limit root organization ≡ ok script
    → IsRendered d root script
unfolding render
render-IsRendered d limit root organization script h =
    after_known (read_networks d root) _ script
      (λ networks read. after_known (read_netclasses d limit organization) _ script (λ nets walked.
        after_known (find_text d root (codes "pubnet")) _ script (λ p pub_at.
          after_known (find_text d root (codes "secnet")) _ script (λ q sec_at.
            after_known (read_classes d root (keys networks)) _ script (λ classes noted last.
              let (pubnet, secnet, pub_first, sec_first) =
                read_networks_first d root networks read in
              let (t, t_at, t_read) = required_net-network_of d root _ pubnet pub_first in
              let (u, u_at, u_read) = required_net-network_of d root _ secnet sec_first in
              let (is_pub, pub_read) = shown-IsNetOf d root _ p t pubnet pub_at t_at t_read in
              let (is_sec, sec_read) = shown-IsNetOf d root _ q u secnet sec_at u_at u_read in
              subst (IsRendered d root) (ok-injective _ script last) (record {
                networks = networks;
                nets = nets;
                read = read;
                pubnet = pubnet;
                secnet = secnet;
                is_pubnet = is_pub;
                is_secnet = is_sec;
                pubnet_read = pub_read;
                secnet_read = sec_read;
                classes = noted;
                lines = refl;
                valid = read_netclasses-AreValid d limit organization nets walked;
              }))))))
      h

-- The networks of the units that are printed into the script are read there without an error.
lines_read :
    (d : Dom) (root : d.Element) (script : Script)
    → IsRendered d root script
    → (nets : List Network) × (map_result (λ (s, _). ip_network s) script.netclasses ≡ ok nets)
lines_read d root script r =
    map_result_total (λ (s, _). ip_network s) script.netclasses
      (λ x i.
        let (entry, j, e) =
          map-In net_line x (sorted_by (λ (n, _). print_network n) r.nets)
            (subst (In x) r.lines i) in
        let valid =
          All-In (λ (n, _). IsNetwork n) r.nets r.valid entry
            (sorted_by-In (λ (n, _). print_network n) entry r.nets j) in
        (entry.0, ap (λ z. ip_network z.0) e ∙ ip_network-print_network entry.0 valid))

ipclass-classify :
    (python : Script → Result Script) (d : Dom) (root : d.Element) (script : Script) (arg : Text)
    (ip : ℕ) (r : IsRendered d root script)
    → python script ≡ ok script
    → ip_address arg ≡ ok ip
    → ipclass python script (arg ∷ []) ≡ classify script r.pubnet r.secnet ip
unfolding ipclass
ipclass-classify python d root script arg ip r quoted h =
    let (nets, made) = lines_read d root script r in
    rw (quoted, r.pubnet_read, r.secnet_read, made, h) refl

-- Where no text in the rendered script has a quote, a backslash or a line end, and Python reads such
-- texts as they are, the script tells for an argument that is an address the function of a server that
-- has an interface with this address; if there is none, it tells that the address is a workstation's
-- if it is in the network for public or for secured workstations; and it ends with an
-- AttributeError for any other address, also where a unit of organization.xml has it.
pub ipclass-Tells :
    (python : Script → Result Script) (d : Dom) (limit : ℕ) (root organization : d.Element)
    (script : Script) (arg : Text) (ip : ℕ)
    → render d limit root organization ≡ ok script
    → ReadsPlain python
    → All IsPlain (printed_texts script)
    → ip_address arg ≡ ok ip
    → (networks : Dict Text Network) × (pubnet : Network) × (secnet : Network) × (read_networks d
          root
        ≡ ok networks)
      × IsNetOf d root (codes "pubnet") pubnet
      × IsNetOf d root (codes "secnet") secnet
      × (((server : d.Element) × (class : Text) × In server (d.findall root (codes "server"))
            × HasInterface d (print_address ip) (keys networks) server
            × Does d server class
            × (ipclass python script (arg ∷ []) ≡ ok (tells class)))
          ⊎ (((server : d.Element)
                → In server (d.findall root (codes "server"))
                → ¬ HasInterface d (print_address ip) (keys networks) server)
              × (((has_address pubnet ip || has_address secnet ip) ≡ true)
                    × (ipclass python script (arg ∷ []) ≡ ok (tells (codes "workstation")))
                  ⊎ ((has_address pubnet ip || has_address secnet ip) ≡ false)
                    × (ipclass python script (arg ∷ []) ≡ err attribute_error))))
unfolding classify
ipclass-Tells python d limit root organization script arg ip h reads plain parsed =
    let r = render-IsRendered d limit root organization script h in
    let run = ipclass-classify python d root script arg ip r (reads script plain) parsed in
    let types = keys r.networks in
    (
      r.networks,
      r.pubnet,
      r.secnet,
      r.read,
      r.is_pubnet,
      r.is_secnet,
      elim (Option-cases (lookup (print_address ip) script.ipclasses)) [
        | inr (class, at) ↦
            let (server, i, on, does) =
              read_classes_source d (print_address ip) root types script.ipclasses class r.classes
                at in
            inl (server, class, i, on, does, run ∙ rw (at, classify) refl)
        | inl missing ↦ inr (
          (λ server i on.
              read_classes-none d (print_address ip) root types script.ipclasses server r.classes
                missing i on),
          elim (Bool-cases (has_address r.pubnet ip || has_address r.secnet ip)) [
            | inl inside ↦ inl (inside, run ∙ rw (missing, classify, inside) refl)
            | inr outside ↦ inr (outside, run ∙ rw (missing, classify, outside) refl)
          ],
        )
      ],
    )
