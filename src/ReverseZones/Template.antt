-- ===== src/ReverseZones/Template.antt =====
-- The reverse zones as the template computes them from umbrella.xml, whose scripts share their variables.
use umbrella_linux.Base.{
  ℕ, ◌≤◌, ◌<◌, ◌≡◌, refl, sym, ◌∙◌, subst, true, false, ◌⊎◌, List, Option, some, Text, Result, ok,
  ◌>>=◌, In, contains, All, after_bind, after_known, ok-injective, option_eq, text_eq,
}
use umbrella_linux.Base.Dict.{lookup, keys, values}
use umbrella_linux.Text.{codes}
use umbrella_linux.Xml.{Dom}
use umbrella_linux.Net.{Network, network_eq, has_address}
use umbrella_linux.FuncHosts.{read_servers, find_services}
use umbrella_linux.FuncHosts.Roles.{read_servers_source}
use umbrella_linux.Networks.{read_networks}
use umbrella_linux.Addresses.{FunctionIfs, read_functions}
use umbrella_linux.Addresses.OfFunctions.{read_functions-Serves}
use umbrella_linux.RevZones.{classful_nets, find_classful, is_served}
use umbrella_linux.RevZones.Names.{reverse_name}
use umbrella_linux.ReverseZones.{Setting, ReverseZone, reverse_zones}
use umbrella_linux.ReverseZones.Scripts.{
  Client, run_base_params, run_networks, run_networking, run_networks-read,
  run_networking-functions,
}
use umbrella_linux.ReverseZones.Delegated.{IsInner}
use umbrella_linux.ReverseZones.Resolved.{LeadsTo}
use umbrella_linux.ReverseZones.Servers.{reverse_zones-LeadsTo}
use umbrella_linux.ReverseZones.Printable.{lookup-keys}
use umbrella_linux.ReverseZones.Complete.{reverse_zones_total}

module _ (d : Dom) where
  -- The variables as the scripts that the template includes compute them, one after another.
  unfoldable pub read_setting : Client d → d.Element → Text → Result Setting
  unfolding run_base_params run_networks run_networking
  read_setting client root timestamp = do
    domain_name ← run_base_params d root
    hosts ← read_servers d domain_name root
    services ← find_services d root hosts
    (networks, ip_addr) ← run_networks d client root
    classfulnets ← classful_nets networks
    functions ← run_networking d client root domain_name hosts ip_addr
    ok (record {
      networks = networks;
      classfulnets = classfulnets;
      hosts = hosts;
      funcifs = functions.funcifs;
      domain_name = domain_name;
      timestamp = timestamp;
    })

  -- What the scripts gave, if none of them raised.
  pub record IsRead (root : d.Element) (s : Setting) : Type 0 where
    pub networks : read_networks d root ≡ ok s.networks
    pub classful : classful_nets s.networks ≡ ok s.classfulnets
    pub servers : read_servers d s.domain_name root ≡ ok s.hosts
    pub functions : FunctionIfs
    pub addresses : read_functions d root ≡ ok functions
    pub kept : functions.funcifs ≡ s.funcifs

  pub read_setting-IsRead :
      (client : Client d) (root : d.Element) (timestamp : Text) (s : Setting)
      → read_setting client root timestamp ≡ ok s
      → IsRead root s
  unfolding read_setting
  read_setting-IsRead client root timestamp s h =
      after_bind (run_base_params d root) _ s
        (λ domain_name. after_known (read_servers d domain_name root) _ s (λ hosts named.
          after_bind (find_services d root hosts) _ s (λ services.
            after_known (run_networks d client root) _ s (λ (networks, ip_addr) read.
              after_known (classful_nets networks) _ s (λ classfulnets classful.
                after_known (run_networking d client root domain_name hosts ip_addr) _ s
                  (λ functions addresses last. subst (IsRead root) (ok-injective _ s last) (record {
                    networks = run_networks-read d client root networks ip_addr read;
                    classful = classful;
                    servers = named;
                    functions = functions;
                    addresses =
                        run_networking-functions d client root domain_name hosts ip_addr functions
                          addresses;
                    kept = refl;
                  })))))))
        h

  -- Every function that has a host has a main address.
  function_address :
      (root : d.Element) (s : Setting) (f : Option Text) (host : Text)
      → IsRead root s
      → lookup f s.hosts.funchosts ≡ some host
      → (a : ℕ) × (lookup f s.funcifs ≡ some a)
  function_address root s f host read named =
      let (server, i, is) =
        read_servers_source d s.domain_name f root s.hosts host read.servers named in
      let (g, _, b, serves, at) =
        (read_functions-Serves d root read.functions read.addresses).1 server i in
      let same : g ≡ f = ok-injective g f (sym serves.0 ∙ is) in
      (
        b,
        subst (λ z. lookup f z ≡ some b) read.kept
            (subst (λ z. lookup z read.functions.funcifs ≡ some b) same at),
      )

-- Where the scripts that the template includes read umbrella.xml and all files of the reverse zones can
-- be printed, their records lead from the reverse name of the main address of a server, which lies in
-- a network that reverse zones are made for, to the name of the server: directly if the zone of the
-- network is classful, and by way of a linking zone if the classful network around it is none of the
-- system's and the address is neither the first nor the last one of the network. The classful network
-- has one, two or three octets.
pub read_setting-LeadsTo :
    (d : Dom) (client : Client d) (root : d.Element) (timestamp : Text) (s : Setting)
    (zones : List ReverseZone) (t : Text) (n netc : Network) (function : Option Text) (a : ℕ)
    (host : Text)
    → read_setting d client root timestamp ≡ ok s
    → reverse_zones s ≡ ok zones
    → In (t, n) s.networks
    → is_served t ≡ true
    → find_classful n s.classfulnets ≡ some netc
    → 8 ≤ netc.prefixlen
    → netc.prefixlen < 32
    → (n ≡ netc) ⊎ ((contains (values s.networks) netc ≡ false) × IsInner n a)
    → lookup function s.hosts.funchosts ≡ some host
    → lookup function s.funcifs ≡ some a
    → has_address n a ≡ true
    → LeadsTo zones (reverse_name a) host
read_setting-LeadsTo d client root timestamp s zones t n netc function a host h =
    let read = read_setting-IsRead d client root timestamp s h in
    reverse_zones-LeadsTo d root s zones t n netc function a host read.networks read.classful

-- Every file that the bundle lists for the reverse zones can be printed, if none of the scripts that
-- the template includes raises, each network has two addresses at least, there is a router, and every server's
-- function has a text.
pub read_setting-reverse_zones :
    (d : Dom) (client : Client d) (root : d.Element) (timestamp : Text) (s : Setting)
    (router : Text)
    → read_setting d client root timestamp ≡ ok s
    → All (λ (_, n). n.prefixlen < 32) s.networks
    → lookup (some (codes "router")) s.hosts.funchosts ≡ some router
    → ((f : Option Text) → In f (keys s.hosts.funchosts) → (name : Text) × (f ≡ some name))
    → (zones : List ReverseZone) × (reverse_zones s ≡ ok zones)
read_setting-reverse_zones d client root timestamp s router h wide routed texts =
    let read = read_setting-IsRead d client root timestamp s h in
    reverse_zones_total d root s router read.networks read.classful wide routed (λ f i.
      let (name, e) = texts f i in
      let (host, named) = lookup-keys f s.hosts.funchosts i in
      let (a, at) = function_address d root s f host read named in (name, a, e, at))
