-- ===== src/Addresses.antt =====
-- Python/30_networking.py: the addresses, devices and hardware addresses of the router, of the servers
-- by their function, and of the host, as umbrella.xml gives them.
pub mod OfHost
pub mod First
pub mod OfFunctions
pub mod Read
pub mod Texts
use umbrella_linux.Base.{
  ℕ, Bool, true, false, ◌||◌, List, [], ◌∷◌, Option, none, some, Text, ◌==◌, text_eq, option_eq,
  if◌then◌else◌, Result, ok, err, attribute_error, key_error, index_error, or_raise, fold_result,
  ◌>>=◌,
}
use umbrella_linux.Base.Dict.{Dict, insert, lookup, values}
use umbrella_linux.Text.{codes, strip}
use umbrella_linux.Interfaces.{iftypes, pubif}
use umbrella_linux.Net.{ip_address}
use umbrella_linux.Xml.{Dom, strip_text, find_text, child_text}

-- `t.text.strip()` where `t.text is not None and t.text.strip()`
unfoldable pub stripped : Option Text → Option Text
stripped none = none
stripped (some s) = elim (strip s) [ [] ↦ none | c ∷ t ↦ some (c ∷ t) ]

-- `d[interface]=ip_address(text)`, if there is a text.
unfoldable pub note_address : Text → Option Text → Dict Text ℕ → Result (Dict Text ℕ)
note_address interface none addresses = ok addresses
note_address interface (some t) addresses = do a ← ip_address t; ok (insert interface a addresses)

-- `d[interface]=text`, if there is one.
unfoldable pub note_text : Text → Option Text → Dict Text Text → Dict Text Text
note_text interface none texts = texts
note_text interface (some t) texts = insert interface t texts

-- `list(d.values())[0]`
unfoldable pub first_value : {V : Type 0} → Dict Text V → Result V
first_value [] = err index_error
first_value ((_, v) ∷ _) = ok v

-- `routerifs`, `routerifdevs` and `routerifmacs`; the last is not set where there is no router.
pub record RouterIfs : Type 0 where
  pub routerifs : Dict Text ℕ
  pub routerifdevs : Dict Text (Option Text)
  pub routerifmacs : Option (Dict Text (Option Text))

-- The address and the hardware address of an interface of a server.
pub record ServerIfs : Type 0 where
  pub srvifs : Dict Text ℕ
  pub srvmacs : Dict Text Text

-- `funcifs` and `funcmacs`
pub record FunctionIfs : Type 0 where
  pub funcifs : Dict (Option Text) ℕ
  pub funcmacs : Dict (Option Text) Text

-- `ifs` and `ifdevs`
pub record HostIfs : Type 0 where
  pub ifs : Dict Text ℕ
  pub ifdevs : Dict Text Text

-- Whether the address of a function is that of the public interface.
unfoldable pub is_public : Option Text → Bool
is_public function =
    function == some (codes "router")
    || function == some (codes "vmhost")
    || function == some (codes "backdoor")

-- `ifaddr` or `ifmac`
unfoldable pub main_value : {V : Type 0} → Option Text → Dict Text V → Result V
unfolding is_public first_value
main_value function values =
    if is_public function then or_raise key_error (lookup pubif values) else first_value values

module _ (d : Dom) where
  -- The text of a child of an interface's element, where the interface and the child are there.
  unfoldable pub interface_text : d.Element → Text → Text → Option Text
  unfolding stripped child_text
  interface_text server interface name = elim (d.find server interface) [
    | none ↦ none
    | some t ↦ stripped (child_text d t name)
  ]

  -- The loop over the interface types of the router.
  unfoldable pub read_router_loop :
      d.Element
      → List Text
      → Dict Text ℕ
      → Dict Text (Option Text)
      → Dict Text (Option Text)
      → Result RouterIfs
  unfolding find_text note_address stripped child_text
  read_router_loop router [] ifs devs macs =
      ok (record { routerifs = ifs; routerifdevs = devs; routerifmacs = some macs })
  read_router_loop router (interface ∷ l) ifs devs macs = elim (d.find router interface) [
    | none ↦ read_router_loop router l ifs devs macs
    | some t ↦ (do
      dev ← find_text d t (codes "dev")
      mac ← find_text d t (codes "mac")
      ifs' ← note_address interface (stripped (child_text d t (codes "ip"))) ifs
      read_router_loop router l ifs' (insert interface dev devs) (insert interface mac macs))
  ]

  -- Without a router its public interface has the gateway of the root unit of organization.xml.
  unfoldable pub simulated_router : d.Element → Result RouterIfs
  unfolding find_text
  simulated_router organization = do
    ou ← or_raise attribute_error (d.find organization (codes "ou"))
    gateway ← find_text d ou (codes "gateway")
    text ← strip_text gateway
    a ← ip_address text
    ok (record {
      routerifs = (pubif, a) ∷ [];
      routerifdevs = (pubif, some (codes "eth0")) ∷ [];
      routerifmacs = none;
    })

  unfoldable pub read_router_ifs : Option d.Element → d.Element → Result RouterIfs
  unfolding simulated_router read_router_loop
  read_router_ifs none organization = simulated_router organization
  read_router_ifs (some router) organization = read_router_loop router iftypes [] [] []

  -- One interface type of a server.
  unfoldable pub note_server_if : d.Element → ServerIfs → Text → Result ServerIfs
  unfolding interface_text note_address note_text
  note_server_if server s interface = do
    srvifs ← note_address interface (interface_text server interface (codes "ip")) s.srvifs
    ok (record {
      srvifs = srvifs;
      srvmacs = note_text interface (interface_text server interface (codes "mac")) s.srvmacs;
    })

  unfoldable pub read_server_ifs : d.Element → Result ServerIfs
  unfolding note_server_if
  read_server_ifs server =
      fold_result (note_server_if server) (record { srvifs = []; srvmacs = [] }) iftypes

  -- One round of the loop over the servers.
  unfoldable pub note_function : FunctionIfs → d.Element → Result FunctionIfs
  unfolding read_server_ifs main_value find_text
  note_function s server = do
    name ← find_text d server (codes "name")
    function ← find_text d server (codes "function")
    own ← read_server_ifs server
    ifaddr ← main_value function own.srvifs
    ifmac ← main_value function own.srvmacs
    ok (record {
      funcifs = insert function ifaddr s.funcifs;
      funcmacs = insert function ifmac s.funcmacs;
    })

  unfoldable pub read_functions : d.Element → Result FunctionIfs
  unfolding note_function
  read_functions root =
      fold_result note_function (record { funcifs = []; funcmacs = [] })
        (d.findall root (codes "server"))

  -- One interface type of the host.
  unfoldable pub note_host_if : d.Element → HostIfs → Text → Result HostIfs
  unfolding interface_text note_address note_text
  note_host_if entry s interface = do
    ifs ← note_address interface (interface_text entry interface (codes "ip")) s.ifs
    ok (record {
      ifs = ifs;
      ifdevs = note_text interface (interface_text entry interface (codes "dev")) s.ifdevs;
    })

  -- `ifs` and `ifdevs` of the host's entry.
  unfoldable pub read_host_ifs : d.Element → Result HostIfs
  unfolding note_host_if
  read_host_ifs entry = fold_result (note_host_if entry) (record { ifs = []; ifdevs = [] }) iftypes
