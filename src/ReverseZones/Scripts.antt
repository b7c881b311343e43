-- ===== src/ReverseZones/Scripts.antt =====
-- The scripts of Python/ that mainzone.rev.genshi includes, each with all of its steps that can raise.
use umbrella_linux.Base.{
  ℕ, List, [], ◌∷◌, Option, none, some, Text, text_eq, Result, ok, attribute_error, key_error,
  or_raise, ◌>>=◌, ◌>>◌, ◌≡◌, ◌∙◌, ap, ok-injective, after_known, after_bind, >>-eq-ok,
}
use umbrella_linux.Base.Dict.{Dict, lookup}
use umbrella_linux.Text.{codes, split}
use umbrella_linux.Interfaces.{extif, intif, pubif}
use umbrella_linux.Xml.{Dom, find_text}
use umbrella_linux.Net.{Network}
use umbrella_linux.BaseParams.{read_localized, read_domain_name, read_domains}
use umbrella_linux.FuncHosts.{Hosts}
use umbrella_linux.Networks.{
  read_networks, read_ip_addr, internal_nets, check_intersections, read_dhcp,
}
use umbrella_linux.Routers.{find_entries, seen_from_outside}
use umbrella_linux.Addresses.{FunctionIfs, read_router_ifs, read_functions, read_host_ifs}
use umbrella_linux.Tags.{read_workstation}
use umbrella_linux.Canonical.{find_canonical}

-- The host that the file is made for, the resolver, the root element of organization.xml, and the recursion
-- limit of the interpreter.
pub record Client (d : Dom) : Type 0 where
  pub hostname : Text
  pub addresses : Option (List Text)
  pub gethostbyname : Text → Option Text
  pub organization : d.Element
  pub limit : ℕ

-- `metadata.hostname.split('.')[0]`
abbrev pub first_label : Text → Text
first_label hostname = elim (split b'.' hostname) [ [] ↦ [] | label ∷ _ ↦ label ]

module _ (d : Dom) where
  -- 00_baseparams.py: the names that have to be there, the main domain, which is the result, and the
  -- domains.
  unfoldable pub run_base_params : d.Element → Result Text
  run_base_params root = do
    system ← read_localized d root (codes "system_name") (codes "system_name_local")
    long ← read_localized d root (codes "long_name") (codes "long_name_local")
    location ← read_localized d root (codes "location") (codes "location_local")
    state ← read_localized d root (codes "state") (codes "state_local")
    country ← read_localized d root (codes "country") (codes "country_local")
    country_code ← find_text d root (codes "country_code")
    domain_name ← read_domain_name d root
    domains ← read_domains d root
    ok domain_name

  -- 20_networks.py: the networks and the host's address.
  unfoldable pub run_networks : Client d → d.Element → Result (Dict Text Network × Option ℕ)
  run_networks client root = do
    networks ← read_networks d root
    public ← or_raise key_error (lookup pubif networks)
    ip_addr ← read_ip_addr client.gethostbyname client.hostname public client.addresses
    check_intersections (internal_nets networks)
    pub_dhcp ← read_dhcp d root
    ok (networks, ip_addr)

  -- The addresses at which the router is seen, if there is one.
  unfoldable pub run_outside : Option d.Element → Result Text
  run_outside none = ok []
  run_outside (some router) = do
    external ← seen_from_outside d router extif
    internal ← seen_from_outside d router intif
    ok []

  -- The host's own part: of its entry in umbrella.xml, or of the units of organization.xml.
  unfoldable pub run_host : Client d → Option ℕ → Option d.Element → Result Text
  run_host client ip_addr none = do
    ou ← or_raise attribute_error (d.find client.organization (codes "ou"))
    workstation ← read_workstation d ip_addr client.limit ou
    ok []
  run_host client ip_addr (some entry) = do host ← read_host_ifs d entry; ok []

  -- 30_networking.py: the main addresses of the servers.
  unfoldable pub run_networking :
      Client d → d.Element → Text → Hosts → Option ℕ → Result FunctionIfs
  unfolding run_outside run_host
  run_networking client root domain_name hosts ip_addr = do
    entries ← find_entries d (first_label client.hostname) root
    router_ifs ← read_router_ifs d entries.router client.organization
    outside ← run_outside entries.router
    functions ← read_functions d root
    host ← run_host client ip_addr entries.entry
    canonical ← find_canonical d hosts domain_name root
    ok functions

  -- What they give, if they do.
  pub run_networks-read :
      (client : Client d) (root : d.Element) (networks : Dict Text Network) (ip_addr : Option ℕ)
      → run_networks client root ≡ ok (networks, ip_addr)
      → read_networks d root ≡ ok networks
  unfolding run_networks
  run_networks-read client root networks ip_addr h =
      after_known (read_networks d root) _ (networks, ip_addr)
        (λ nets read h1.
          after_bind (or_raise key_error (lookup pubif nets)) _ (networks, ip_addr)
            (λ public h2.
              after_bind (read_ip_addr client.gethostbyname client.hostname public client.addresses)
                _ (networks, ip_addr)
                (λ ip h3.
                  let (_, _, h4) = >>-eq-ok (check_intersections (internal_nets nets)) _ h3 in
                  after_bind (read_dhcp d root) _ (networks, ip_addr)
                    (λ pub_dhcp last.
                      read ∙ ap (λ z. ok z.0) (ok-injective (nets, ip) (networks, ip_addr) last))
                    h4)
                h2)
            h1)
        h

  pub run_networking-functions :
      (client : Client d) (root : d.Element) (domain_name : Text) (hosts : Hosts)
      (ip_addr : Option ℕ) (functions : FunctionIfs)
      → run_networking client root domain_name hosts ip_addr ≡ ok functions
      → read_functions d root ≡ ok functions
  unfolding run_networking
  run_networking-functions client root domain_name hosts ip_addr functions h =
      after_bind (find_entries d (first_label client.hostname) root) _ functions
        (λ entries.
          after_bind (read_router_ifs d entries.router client.organization) _ functions
            (λ router_ifs. after_bind (run_outside entries.router) _ functions (λ outside.
              after_known (read_functions d root) _ functions (λ found read.
                after_bind (run_host client ip_addr entries.entry) _ functions (λ host.
                  after_bind (find_canonical d hosts domain_name root) _ functions
                    (λ canonical last. read ∙ ap ok (ok-injective found functions last)))))))
        h
