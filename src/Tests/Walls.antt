-- ===== src/Tests/Walls.antt =====
-- Runs of the robots, the static routes and the flags of the firewall, and of
-- the entries of the host and the router.
use umbrella_linux.Base.{
  none, option_eq, keep, ℕ, ◌≡◌, refl, true, false, ◌&&◌, ◌||◌, List, [], ◌∷◌, some, Text, ok,
  nat_eq, text_eq, ℕ_discrete, text_discrete, get_elem?,
}
use umbrella_linux.Base.Dict.{Dict, lookup, insert, has_key}
use umbrella_linux.Text.{codes, split, strip}
use umbrella_linux.Interfaces.{pubif, drop_last_two}
use umbrella_linux.Net.{Network, ip_address, ip_network, has_address, strict_network}
use umbrella_linux.Xml.{find_text, child_text, has_child}
use umbrella_linux.Firewall.{
  Numbering, read_robots, note_robot, note_names, noteaddr, register, note_flows, flows,
  robot_servers, read_routes, read_route, stripped_child, check_route, ssh_to_router,
}
use umbrella_linux.Firewall.Flags.{read_flags, read_flags-OnlyIf, OnlyIf}
use umbrella_linux.FuncHosts.{no_hosts, has_host}
use umbrella_linux.Firewall.Robots.{read_robots-HasServer, HasServer}
use umbrella_linux.Firewall.Routes.{read_routes-AreReachable, AreReachable}
use umbrella_linux.Routers.{ServerEntries, find_entries, note_entry, only, has_text}
use umbrella_linux.Routers.Entries.{find_entries-keep, elements}
use umbrella_linux.Tests.Tree.{Forest, empty, Xml, named, xml, leaf, branch, root_of}

-- Two robots, the first of them with two names.
abbrev robot : Text → Text → Forest → Forest
robot ip name rest =
    branch (codes "robot") (leaf (codes "ip") ip (leaf (codes "name") name empty)) rest

abbrev firewall : Xml
firewall = root_of (
    branch (codes "mail_in_DMZ")
      (robot (codes "10.0.0.7") (codes "a")
        (robot (codes "10.0.0.8") (codes "b") (robot (codes "10.0.0.7") (codes "c") empty)))
      empty)

abbrev names : Dict Text ℕ
names = (codes "a", 0) ∷ (codes "b", 1) ∷ (codes "c", 0) ∷ []

abbrev numbering : Numbering
numbering = record {
  num = 2;
  address_numbering = (167772167, 0) ∷ (167772168, 1) ∷ [];
  robot_out_addrs = names;
  robot_inc_addrs = names;
}

robots_read : read_robots xml firewall ≡ ok numbering
unfolding read_robots note_robot note_names noteaddr register note_flows flows lookup insert
    find_text strip ip_address split named text_eq text_discrete nat_eq ℕ_discrete
robots_read = refl

second_robot : lookup 167772168 numbering.address_numbering ≡ some 1
unfolding lookup nat_eq ℕ_discrete
second_robot = refl

read_robots-HasServer_example :
    (get_elem? (robot_servers numbering) 1 ≡ some (some 167772168))
    × HasServer numbering (lookup (codes "c") names)
    × HasServer numbering (lookup (codes "c") names)
read_robots-HasServer_example =
    read_robots-HasServer xml firewall numbering (codes "c") 167772168 1 robots_read second_robot

-- 192.168.1.0/24, and a route by way of 192.168.1.9
abbrev networks : Dict Text Network
networks = (pubif, record { address = 3232235776; prefixlen = 24 }) ∷ []

abbrev routed : Xml
routed = root_of (
    branch (codes "static_route_pub")
      (leaf (codes "network") (codes "10.0.0.0/8") (leaf (codes "via") (codes "192.168.1.9") empty))
      empty)

abbrev routes : Dict Text (List (Network × ℕ))
routes = (pubif, (record { address = 167772160; prefixlen = 8 }, 3232235785) ∷ []) ∷ []

routes_read : read_routes xml routed networks [] ≡ ok routes
unfolding read_routes read_route stripped_child check_route insert find_text strip ip_network
    ip_address strict_network split has_address drop_last_two named text_eq text_discrete nat_eq
    ℕ_discrete
routes_read = refl

read_routes-AreReachable_example : AreReachable networks pubif (lookup pubif routes)
read_routes-AreReachable_example =
    read_routes-AreReachable xml routed networks pubif routes routes_read

-- SSH is let in from outside, home pages are served, and there is no terminal server.
abbrev walls : Xml
walls = root_of (
    branch (codes "ssh_from_ext") empty (
      branch (codes "forward_ssh_to_ltsp") empty
        (branch (codes "auth_in_DMZ") (branch (codes "www_homes") empty empty) empty)))

read_flags-OnlyIf_example :
    let f = read_flags xml walls no_hosts in
    ((f.to_router || f.to_ltsp) ≡ (f.ssh_from_ext || f.ssh_from_int))
    × ((f.to_router && f.to_ltsp) ≡ false)
    × OnlyIf (has_host (codes "ltsp") no_hosts) f.to_ltsp
    × OnlyIf (has_host (codes "mail") no_hosts) f.smtps_imaps_to_mail
    × OnlyIf f.auth_in_dmz f.www_homes
read_flags-OnlyIf_example = read_flags-OnlyIf xml walls no_hosts

walls_read :
    (read_flags xml walls no_hosts).to_router && (read_flags xml walls no_hosts).www_homes ≡ true
unfolding read_flags has_child named text_eq text_discrete ℕ_discrete ssh_to_router has_host has_key
walls_read = refl

-- umbrella.xml with a host that is the router, and another one.
abbrev server : Text → Text → Forest → Forest
server name function rest =
    branch (codes "server") (leaf (codes "name") name (leaf (codes "function") function empty)) rest

abbrev gate : Xml
gate = record {
  tag = codes "server";
  text = none;
  attributes = [];
  children = leaf (codes "name") (codes "gate") (leaf (codes "function") (codes "router") empty);
}

abbrev site : Xml
site = root_of (server (codes "gate") (codes "router") (server (codes "post") (codes "mail") empty))

abbrev site_entries : ServerEntries xml
site_entries = record { entry = some gate; router = some gate }

site_read : find_entries xml (codes "gate") site ≡ ok site_entries
unfolding find_entries note_entry only has_text child_text find_text named option_eq text_eq
    text_discrete ℕ_discrete
site_read = refl

find_entries-keep_example :
    (keep (has_text xml (codes "name") (codes "gate")) (named (codes "server") site.children)
      ≡ elements (some gate))
    × (keep
          (has_text xml (codes "function") (codes "router"))
          (named (codes "server") site.children)
        ≡ elements (some gate))
find_entries-keep_example = find_entries-keep xml (codes "gate") site site_entries site_read
