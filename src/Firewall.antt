-- ===== src/Firewall.antt =====
-- Python/25_firewall.py: the flags of firewall.xml, the numbered robot servers, the DNS lists for SMTP
-- hosts and the static routes.
pub mod Flags
pub mod Places
pub mod Robots
pub mod Routes
use umbrella_linux.Base.{
  ℕ, zero, suc, ◌+◌, Bool, true, false, not, ◌&&◌, ◌||◌, List, [], ◌∷◌, ◌++◌, Option, none, some,
  Text, ◌==◌, nat_eq, text_eq, if◌then◌else◌, Result, ok, err, attribute_error, name_error,
  type_error, template_error, or_raise, raise_if, fold_result, map_result, ◌>>=◌, ◌>>◌, length,
  replicate, set,
}
use umbrella_linux.Base.Dict.{Dict, insert, lookup}
use umbrella_linux.Text.{codes, strip}
use umbrella_linux.Interfaces.{drop_last_two}
use umbrella_linux.Net.{Network, ip_address, ip_network, has_address, print_address, print_network}
use umbrella_linux.Xml.{Dom, strip_text, find_text, has_child}

-- `ssh_to_router` and `ssh_to_ltsp` at the end.
unfoldable pub ssh_to_router : Bool → Bool → Bool → Bool → Bool
ssh_to_router from_ext from_int forward has_ltsp =
    (from_ext || from_int) && not (forward && has_ltsp)

unfoldable pub ssh_to_ltsp : Bool → Bool → Bool → Bool → Bool
ssh_to_ltsp from_ext from_int forward has_ltsp = (from_ext || from_int) && (forward && has_ltsp)

-- The robots' addresses in the order of their numbers, and the numbers of the names by direction.
pub record Numbering : Type 0 where
  pub num : ℕ
  pub address_numbering : Dict ℕ ℕ
  pub robot_out_addrs : Dict Text ℕ
  pub robot_inc_addrs : Dict Text ℕ

abbrev pub no_robots : Numbering
no_robots = record { num = 0; address_numbering = []; robot_out_addrs = []; robot_inc_addrs = [] }

-- `(not flow) or flow=="sendrecv" or flow==one_way`
unfoldable pub flows : Text → Option Text → Bool
flows one_way none = true
flows one_way (some []) = true
flows one_way (some (c ∷ s)) = (c ∷ s) == codes "sendrecv" || (c ∷ s) == one_way

-- The number of an address, which is the next one if the address is new.
unfoldable pub register : ℕ → Numbering → ℕ × Numbering
register addr s = elim (lookup addr s.address_numbering) [
  | some rnum ↦ (rnum, s)
  | none ↦ (
    s.num,
    record s { num = s.num + 1; address_numbering = insert addr s.num s.address_numbering },
  )
]

unfoldable pub note_flows : Text → Option Text → ℕ → Numbering → Numbering
unfolding flows
note_flows name flow rnum s = record s {
  robot_out_addrs =
      (if flows (codes "sendonly") flow
        then insert name rnum s.robot_out_addrs
        else s.robot_out_addrs);
  robot_inc_addrs =
      (if flows (codes "recvonly") flow
        then insert name rnum s.robot_inc_addrs
        else s.robot_inc_addrs);
}

-- `noteaddr(name, addr, flow)`
unfoldable pub noteaddr : Text → ℕ → Option Text → Numbering → Numbering
unfolding register note_flows
noteaddr name addr flow s = let (rnum, s') = register addr s in note_flows name flow rnum s'

abbrev pub ml_suffixes : List Text
ml_suffixes =
    codes "admin"
    ∷ codes "bounces"
    ∷ codes "confirm"
    ∷ codes "join"
    ∷ codes "leave"
    ∷ codes "owner"
    ∷ codes "request"
    ∷ codes "subscribe"
    ∷ codes "unsubscribe"
    ∷ []

unfoldable pub note_suffixes : Text → ℕ → Option Text → List Text → Numbering → Numbering
unfolding noteaddr
note_suffixes list_name addr flow [] s = s
note_suffixes list_name addr flow (suffix ∷ l) s =
    note_suffixes list_name addr flow l (noteaddr (list_name ++ codes "-" ++ suffix) addr flow s)

-- `robot_servers[num]=addr` for each entry of the numbering.
unfoldable pub place_all : Dict ℕ ℕ → List (Option ℕ) → List (Option ℕ)
place_all [] servers = servers
place_all ((addr, num) ∷ numbering) servers = place_all numbering (set servers num (some addr))

unfoldable pub robot_servers : Numbering → List (Option ℕ)
unfolding place_all
robot_servers s = place_all s.address_numbering (replicate (length s.address_numbering) none)

module _ (d : Dom) where
  -- The names of a robot: a mailing list's with its suffixes, if it has one, or its own.
  unfoldable pub note_names :
      Option d.Element → d.Element → ℕ → Option Text → Numbering → Result Numbering
  unfolding note_suffixes find_text
  note_names (some e) robot addr flow s = do
    list_name ← or_raise type_error (d.text e)
    ok (note_suffixes list_name addr flow ml_suffixes (noteaddr list_name addr flow s))
  note_names none robot addr flow s = do
    t ← find_text d robot (codes "name")
    name ← strip_text t
    ok (noteaddr name addr flow s)

  -- One round of the loop over the robots.
  unfoldable pub note_robot : Numbering → d.Element → Result Numbering
  unfolding note_names find_text
  note_robot s robot = do
    t ← find_text d robot (codes "ip")
    text ← strip_text t
    addr ← ip_address text
    note_names (d.find robot (codes "list_name")) robot addr (d.attribute robot (codes "flow")) s

  -- The numbering, from `mail_in_DMZ` of firewall.xml if there is one.
  unfoldable pub read_robots_of : Option d.Element → Result Numbering
  unfolding note_robot
  read_robots_of none = ok no_robots
  read_robots_of (some e) = fold_result note_robot no_robots (d.findall e (codes "robot"))

  unfoldable pub read_robots : d.Element → Result Numbering
  unfolding read_robots_of
  read_robots root = read_robots_of (d.find root (codes "mail_in_DMZ"))

  -- `cacheDNSListItem` on each item: its name and its `recordMatch`.
  unfoldable pub dns_list : List d.Element → Result (List (Text × Option Text))
  dns_list = map_result (λ item. do
    name ← strip_text (d.text item)
    ok (name, d.attribute item (codes "recordMatch")))

  -- The lists, and whether a loop variable `dnsname` is left.
  unfoldable pub read_dns_lists :
      d.Element → Result (List (Text × Option Text) × List (Text × Option Text))
  unfolding dns_list
  read_dns_lists root = elim (d.find root (codes "DNS_SMTP_lists")) [
    | none ↦ err name_error
    | some lists ↦ (do
      whitelists ← dns_list (d.findall lists (codes "whitelist"))
      blacklists ← dns_list (d.findall lists (codes "blacklist"))
      elim (d.findall lists (codes "whitelist") ++ d.findall lists (codes "blacklist")) [
        | [] ↦ err name_error
        | _ ∷ _ ↦ ok (whitelists, blacklists)
      ])
  ]

  -- The message for a gateway that is not in the network.
  bad_gateway : Text → Network → ℕ → Text
  bad_gateway netif net via =
      codes "The static route on \""
      ++ drop_last_two netif
      ++ codes "\" to "
      ++ print_network net
      ++ codes " points to a gateway "
      ++ print_address via
      ++ codes ", which is not in \""
      ++ drop_last_two netif
      ++ codes "\" network."

  -- `e.find(name).text.strip()`
  unfoldable pub stripped_child : d.Element → Text → Result Text
  unfolding find_text
  stripped_child e name = do t ← find_text d e name; strip_text t

  -- A route whose gateway has to lie in the network of the interface.
  unfoldable pub check_route : Text → Network → Network → ℕ → Result (Network × ℕ)
  unfolding bad_gateway
  check_route netif netwrk route_network route_via =
      if has_address netwrk route_via
      then ok (route_network, route_via)
      else err (template_error (bad_gateway netif route_network route_via))

  -- One static route of an interface.
  unfoldable pub read_route : Text → Network → d.Element → Result (Network × ℕ)
  unfolding stripped_child check_route
  read_route netif netwrk e = do
    network ← stripped_child e (codes "network")
    route_network ← ip_network network
    via ← stripped_child e (codes "via")
    route_via ← ip_address via
    check_route netif netwrk route_network route_via

  -- `static_routes[netif]=routes_acc`, if there are any.
  abbrev pub keep_routes :
      Text → List (Network × ℕ) → Dict Text (List (Network × ℕ)) → Dict Text (List (Network × ℕ))
  keep_routes netif [] routes = routes
  keep_routes netif (r ∷ acc) routes = insert netif (r ∷ acc) routes

  -- The loop over the networks.
  unfoldable pub read_routes :
      d.Element
      → Dict Text Network
      → Dict Text (List (Network × ℕ))
      → Result (Dict Text (List (Network × ℕ)))
  unfolding read_route
  read_routes root [] routes = ok routes
  read_routes root ((netif, netwrk) ∷ networks) routes = do
    acc ←
        map_result (read_route netif netwrk)
          (d.findall root (codes "static_route_" ++ drop_last_two netif))
    read_routes root networks (keep_routes netif acc routes)
