-- ===== src/Lib.antt =====
-- A model of the Python code of umbrella-linux, and what it guarantees.
--
-- umbrella-linux is a repository for the bcfg2 configuration server: Genshi templates that are
-- rendered for each host. The templates include the scripts of Python/, which read umbrella.xml,
-- organization.xml and usbdev.xml of Properties/, compute the variables that the templates print, and
-- raise a TemplateError for a configuration that is not allowed. The scripts run one after another
-- and share their global variables: `networks` of Python/20_networks.py is what
-- Python/21_revzones.py wraps, `domain_name` of Python/00_baseparams.py completes the names of
-- Python/10_funchosts.py, and Python/30_networking.py looks the address of the host up in
-- organization.xml. Beside them, the program umbrella-hosts finds and checks free addresses in the
-- networks of organization.xml.
--
-- The files, and the code they are about:
--   Base, Base/*: equality, results with Python's exceptions, lists, dicts, loops that may raise.
--   Text, Text/*: the methods of `str` that the scripts call (split, join, strip, decimal numbers,
--     order).
--   Net, Net/*: the part of Python's `ipaddress` that the scripts call: IPv4 networks and addresses,
--     their parsing and printing.
--   Xml: parsed XML as the scripts read it. The parser, lxml, is not part of the repository: its
--     elements are the parameter `Dom`, and `IsTree` says what the walks rely on: trees are finite,
--     and `find` gives the first of `findall`.
--   Interfaces: the names of the interface types.
--   BaseParams: Python/00_baseparams.py (the domains in Domains, the LDAP root in Ldap).
--   FuncHosts: Python/10_funchosts.py (the dicts in Roles, the services in Found).
--   Passfiles: Python/12_passfiles.py, `read_password` (Reuse for when a password is
--     kept, Generated for what a new one consists of).
--   Networks: Python/20_networks.py (Subnet, Cleanup and Coverage for `cleanup_fully_contained`,
--     Checks for the checks of the script, Read for the networks that are read).
--   RevZones: Python/21_revzones.py (Wrapping and Served for the set of classful networks, Zones for
--     `findClassful`, Names for `networkZoneName` and `hostRevIP`, Configured for the networks of
--     umbrella.xml).
--   Tags: `accumulate_tags` of Python/30_networking.py and what the script takes from it for a
--     workstation (Walk, Hosts).
--   Timestamp: Python/32_zone_timestamp.py (Reading for `int`, Serial for one run after
--     another, History for runs and changes in any order, Counter for the counter it refines).
--   Organization: Python/35_organization.py, `fill_netclasses` (Chains, Inherit, Complete).
--   Usbdev: Python/40_usbdev.py (Devices).
--   Ossec: Python/45_ossec.py (Ignored, and Callers for the stack of its callers).
--   Firewall: Python/25_firewall.py (Places and Robots for the numbered robot servers, Routes for the
--     static routes, Flags for the flags).
--   Routers: of Python/30_networking.py, the entries of the host and of the router (Entries) and the
--     addresses at which the router is seen from outside.
--   Addresses: of Python/30_networking.py, the addresses of the router, of the servers by function
--     (First, OfFunctions) and of the host (OfHost); Read is about the loops that fill a dict, Texts about
--     the texts that umbrella.xml has for an interface.
--   Stanza: interface_stanza of Python/30_networking.py (Lines from the interface's element; Routing
--     for what the text contains).
--   Canonical: of Python/30_networking.py, the loop over the domains and the canonical host name
--     (Chosen).
--   UmbrellaHosts: Cfg/usr/local/bin/umbrella-hosts/umbrella-hosts (Script for the walk and the modes,
--     Free for the search, Allotted for searches one after
--     another, Known for the addresses in use, Modes for what the modes answer,
--     Units for the unit whose network is meant, Tree for the end of the walk).
--   Nagios: Documentation/hacks/nagios_map/update_nagios (Lists and Collected for the parts of the
--     choice of pings, Paths for the paths of the monitor and a switch, Chosen for what is pinged, Files for the parents and the files).
--   ReverseZones: Cfg/etc/bind/zones/mainzone.rev/mainzone.rev.genshi and the reverse zones of
--     Bundler/bind-zones.xml (Files and Listed for the names of the files, Delegated for the linking
--     zones, Pointed for the servers, Resolved and Servers for the records of all zones together, Printable and
--     Complete for when the zones can be printed, Scripts and Template for the scripts that
--     the template includes).
--   Ipclass: Cfg/usr/local/bin/ipclass/ipclass.G50_ubuntu-jammy.genshi (Classes for the addresses of the
--     servers, Told for what the script answers).
--   Transfers: of Cfg/etc/bind/named.conf.local/named.conf.local.genshi, the list of those who may
--     transfer a domain (Allowed).
--   MainZone: Cfg/etc/bind/zones/mainzone/mainzone.genshi (Lines and Aliases for the names
--     that its lines refer to, Agreement for the main zone and the reverse zones together).
--   Tests: runs of the modelled code at concrete inputs, on the element trees of Tests/Tree.
--
-- Bounds and conventions:
--   * A text is the list of its code points, an IPv4 address a number below 2^32. A set is a list
--     without duplicates, in the order of insertion.
--   * An exception is a value of `Exc` in a `Result`; the effects of a script that raises are lost,
--     as the rendering stops.
--   * The recursion of `fill_netclasses`, of `accumulate_tags` and of `print_tree` runs on fuel, which
--     is the recursion limit of the interpreter; running out is a RecursionError. A limit above the height
--     of the tree is enough.
--   * `decimal` runs on fuel above the number of digits, which is always enough.
--   * Times are whole seconds. The calendar of the machine, the resolver and `random.choice`
--     are parameters.
--
-- Not modelled: reading and writing files beyond the value that is read or left, IPv6, the templates
-- other than those named above, and the programs outside Python/ other than umbrella-hosts and
-- update_nagios.
-- A network of the standard library has no `netmask()`, and its address cannot be added to a text:
-- Stanza has the TypeError. In ReverseZones and MainZone, it is not modelled which of the zones a
-- name server takes for a name; of the zone of the main domain, the lines for subdomains are left
-- out. In Ipclass, what Python reads in the printed script is a parameter. In UmbrellaHosts, the
-- roots of the XML files, the XPath queries, the answer of LDAP and the formatting of a percentage
-- are parameters. In Nagios, the queries on the topology, the paths and the parents of its elements,
-- and the test of a file are parameters.
pub mod Base
pub mod Text
pub mod Net
pub mod Xml
pub mod Interfaces
pub mod Networks
pub mod RevZones
pub mod Nagios
pub mod Organization
pub mod Stanza
pub mod Tags
pub mod Timestamp
pub mod Passfiles
pub mod UmbrellaHosts
pub mod Usbdev
pub mod Ossec
pub mod BaseParams
pub mod FuncHosts
pub mod Firewall
pub mod Routers
pub mod Canonical
pub mod Addresses
pub mod Tests
pub mod ReverseZones
pub mod Ipclass
pub mod Transfers
pub mod MainZone
