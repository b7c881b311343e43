-- ===== src/MainZone.antt =====
-- Cfg/etc/bind/zones/mainzone/mainzone.genshi: the zone of the main domain.
pub mod Lines
pub mod Aliases
pub mod Agreement
use umbrella_linux.Base.{
  ℕ, ◌-◌, Bool, true, false, not, ◌&&◌, ◌||◌, List, [], ◌∷◌, ◌++◌, map, Option, none, some, Text,
  ◌==◌, text_eq, option_eq, if◌then◌else◌, Result, ok, key_error, or_raise, ◌>>=◌, map_result,
  length, replicate,
}
use mathlib.Core.List.{flatten}
use umbrella_linux.Base.Dict.{lookup, keys}
use umbrella_linux.Text.{codes}
use umbrella_linux.Net.{print_address}
use umbrella_linux.BaseParams.{realm_name}
use umbrella_linux.FuncHosts.{host_of, has_host}
use umbrella_linux.ReverseZones.{Setting, sorted_functions, left_column}

-- The variables that this template has besides: `routerifs['pubif']`, `forward_ssh_to_ltsp` and the key
-- for signing mail.
pub record Extras : Type 0 where
  pub ip_address : ℕ
  pub forward_ssh_to_ltsp : Bool
  pub dkim_pubkey : Text

-- A line of the zone; names are relative to the domain.
pub data Line : Type 0 where
  server : Text → Line
  origin : ℕ → Line
  address : Text → ℕ → Line
  mailer : Text → Line
  remark : Text → Text → Line
  alias : Text → Text → Line
  service : Text → Text → Text → Line

unfoldable pub line_text : Line → Text
line_text (server name) = left_column [] ++ codes "    NS    " ++ name ++ codes "\n"
line_text (origin a) = left_column [] ++ codes "    A     " ++ print_address a ++ codes "\n"
line_text (address owner a) =
    left_column owner ++ codes " IN A     " ++ print_address a ++ codes "\n"
line_text (mailer name) = left_column [] ++ codes "    MX    5 " ++ name ++ codes "\n"
line_text (remark owner text) = left_column owner ++ codes " IN TXT   \"" ++ text ++ codes "\"\n"
line_text (alias owner name) = left_column owner ++ codes " IN CNAME " ++ name ++ codes "\n"
line_text (service owner port name) =
    left_column owner ++ codes " IN SRV   " ++ port ++ codes " " ++ name ++ codes "\n"

-- The lines behind the address of the configuration server.
unfoldable pub config_lines : Text → Text → List Line
config_lines realm short =
    alias (codes "autoconfig") short
    ∷ alias (codes "packages") short
    ∷ alias (codes "gosa") short
    ∷ alias (codes "dir") short
    ∷ alias (codes "wpad") short
    ∷ alias (codes "kdc1") short
    ∷ alias (codes "ldap1") short
    ∷ remark (codes "_kerberos") realm
    ∷ service (codes "_wpad._tcp") (codes "0 0 80") short
    ∷ service (codes "_kerberos._udp") (codes "0 0 88") short
    ∷ service (codes "_kerberos-master._udp") (codes "0 0 88") short
    ∷ service (codes "_kerberos-adm._tcp") (codes "0 0 749") short
    ∷ service (codes "_kpasswd._udp") (codes "0 0 464") short
    ∷ []

-- `{% if ... %}`
abbrev pub lines_if : Bool → List Line → List Line
lines_if b l = if b then l else []

-- The further lines of a server, by its function.
unfoldable pub function_lines : Setting → Extras → Option Text → Text → List Line
unfolding config_lines
function_lines s x host short =
    lines_if (host == some (codes "router")) (alias (codes "ns1") short ∷ [])
    ++ (lines_if (host == some (codes "config")) (config_lines (realm_name s.domain_name) short)
        ++ (lines_if (host == some (codes "ltsp") && x.forward_ssh_to_ltsp)
              (alias (codes "gate") short ∷ [])
            ++ (lines_if (host == some (codes "proxy")) (
                  alias (codes "kdc2") short
                  ∷ alias (codes "ldap2") short
                  ∷ service (codes "_kerberos._udp") (codes "0 0 88") short
                  ∷ [])
                ++ (lines_if
                      ((host == some (codes "proxy") && not (has_host (codes "DMZxmpp") s.hosts))
                        || host == some (codes "DMZxmpp"))
                      (service (codes "_xmpp-client._tcp") (codes "5 0 5222") short ∷ [])
                    ++ lines_if (host == some (codes "DMZxmpp")) (
                        service (codes "_jabber._tcp") (codes "5 0 5269") short
                        ∷ service (codes "_xmpp-server._tcp") (codes "5 0 5269") short
                        ∷ [])))))

-- The lines of a server.
unfoldable pub server_lines : Setting → Extras → Option Text → Result (List Line)
unfolding function_lines
server_lines s x host = do
  short ← or_raise key_error (lookup host s.hosts.funchostsshort)
  a ← or_raise key_error (lookup host s.funcifs)
  ok (address short a ∷ function_lines s x host short)

-- The lines for mail, if there is a mail server.
unfoldable pub mail_lines : Setting → Extras → Result (List Line)
mail_lines s x =
    if has_host (codes "mail") s.hosts
    then (do
      short ← or_raise key_error (lookup (some (codes "mail")) s.hosts.funchostsshort)
      ok (
          mailer short
          ∷ remark [] (codes "v=spf1 a mx ~all")
          ∷ remark (codes "mail._domainkey") (codes "k=rsa; t=s; p=" ++ x.dkim_pubkey)
          ∷ []))
    else ok []

-- The lines of the zone behind the SOA, which names the router, down to those of the last server.
unfoldable pub main_lines : Setting → Extras → Result (List Line)
unfolding mail_lines server_lines
main_lines s x = do
  router ← host_of (codes "router") s.hosts
  short ← or_raise key_error (lookup (some (codes "router")) s.hosts.funchostsshort)
  mail ← mail_lines s x
  functions ← sorted_functions (keys s.hosts.funchosts)
  servers ← map_result (server_lines s x) functions
  ok (server short ∷ origin x.ip_address ∷ (mail ++ flatten servers))
