-- ===== src/FuncHosts.antt =====
-- Python/10_funchosts.py: which server has which function, and the servers of the services.
pub mod Roles
pub mod Found
use umbrella_linux.Base.{
  Bool, true, false, ◌&&◌, List, [], ◌∷◌, ◌++◌, Option, none, some, Text, Result, ok, err,
  key_error, type_error, or_raise, fold_result, ◌>>=◌, ◌==◌, text_eq, option_eq, if◌then◌else◌,
}
use umbrella_linux.Base.Dict.{Dict, insert, lookup, has_key}
use umbrella_linux.Text.{codes}
use umbrella_linux.Xml.{Dom, find_text, find_str, has_child}

-- The dicts of the script. A function is `None` where its element has no text.
pub record Hosts : Type 0 where
  pub funchosts : Dict (Option Text) Text
  pub funchostsshort : Dict (Option Text) Text
  pub hostfuncs : Dict Text (Option Text)

abbrev pub no_hosts : Hosts
no_hosts = record { funchosts = []; funchostsshort = []; hostfuncs = [] }

-- `funchostdesc`
unfoldable pub funchostdesc : Dict Text Text
funchostdesc =
    (codes "router", codes "The main router.")
    ∷ (codes "config", codes "Configuration server.")
    ∷ (codes "proxy", codes "Proxy server.")
    ∷ (codes "mail", codes "Mail server.")
    ∷ (codes "monitor", codes "Monitoring server.")
    ∷ (codes "nfs", codes "NFS server.")
    ∷ (codes "ltsp", codes "Terminal server.")
    ∷ (codes "vmhost", codes "VM host.")
    ∷ (codes "archive", codes "Archive server.")
    ∷ (codes "backdoor", codes "Backdoor server.")
    ∷ (codes "DMZsmtp", codes "DNS and SMTP server in DMZ.")
    ∷ (codes "DMZwww", codes "Web server.")
    ∷ (codes "DMZwww-test", codes "TEST Web server.")
    ∷ (codes "DMZxmpp", codes "Jabber server in DMZ.")
    ∷ (codes "DMZpbx", codes "PBX (telephony) server in DMZ.")
    ∷ (codes "DMZvpn", codes "VPN server in DMZ.")
    ∷ (codes "DMZlib", codes "Library (Invenio) server in DMZ.")
    ∷ (codes "DMZvidconf", codes "Video-conference server in DMZ.")
    ∷ []

-- `srvnameshort+'.'+domain_name`
abbrev pub full_name : Text → Text → Text
full_name domain_name short = short ++ codes "." ++ domain_name

-- `funchosts[function]`
unfoldable pub host_of : Text → Hosts → Result Text
host_of function hosts = or_raise key_error (lookup (some function) hosts.funchosts)

-- `function in funchosts`
unfoldable pub has_host : Text → Hosts → Bool
has_host function hosts = has_key (some function) hosts.funchosts

-- `smtp_server` and `imap_server`
unfoldable pub smtp_server : Option Text → Hosts → Option Text
smtp_server smtp_outbound_relay hosts = elim (lookup (some (codes "mail")) hosts.funchosts) [
  | none ↦ smtp_outbound_relay
  | some name ↦ some name
]

-- `ldap_URIs`
unfoldable pub ldap_uris : Hosts → Result (List Text)
unfolding host_of
ldap_uris hosts = do
  config ← host_of (codes "config") hosts
  ok (
      (codes "ldaps://" ++ config) ∷ (elim (lookup (some (codes "proxy")) hosts.funchosts) [
        | none ↦ []
        | some proxy ↦ (codes "ldaps://" ++ proxy) ∷ []
      ]))

-- `NTP_server`, where the flag says whether umbrella.xml has NTP_server_on_vmhost.
unfoldable pub ntp_server : Bool → Hosts → Result Text
unfolding host_of has_host
ntp_server wanted hosts = do
  config ← host_of (codes "config") hosts
  if has_host (codes "vmhost") hosts && wanted then host_of (codes "vmhost") hosts else ok config

-- `XMPP_server`
unfoldable pub xmpp_server : Hosts → Result Text
unfolding host_of has_host
xmpp_server hosts =
    if has_host (codes "DMZxmpp") hosts
    then host_of (codes "DMZxmpp") hosts
    else host_of (codes "proxy") hosts

pub record Services : Type 0 where
  pub smtp : Option Text
  pub imap : Option Text
  pub ldap : List Text
  pub ntp : Text
  pub xmpp : Text

module _ (d : Dom) where
  -- One round of the loop over the servers.
  unfoldable pub note_server : Text → Hosts → d.Element → Result Hosts
  unfolding find_str find_text
  note_server domain_name hosts server = do
    short ← find_str d type_error server (codes "name")
    function ← find_text d server (codes "function")
    ok (record {
      funchosts = insert function (full_name domain_name short) hosts.funchosts;
      funchostsshort = insert function short hosts.funchostsshort;
      hostfuncs = insert (full_name domain_name short) function hosts.hostfuncs;
    })

  unfoldable pub read_servers : Text → d.Element → Result Hosts
  unfolding note_server
  read_servers domain_name root =
      fold_result (note_server domain_name) no_hosts (d.findall root (codes "server"))

  -- The rest of the script.
  unfoldable pub find_services : d.Element → Hosts → Result Services
  unfolding find_text has_child smtp_server ldap_uris ntp_server xmpp_server
  find_services root hosts = do
    relay ← find_text d root (codes "SMTP_outbound_relay")
    ldap ← ldap_uris hosts
    ntp ← ntp_server (has_child d root (codes "NTP_server_on_vmhost")) hosts
    xmpp ← xmpp_server hosts
    ok (record {
      smtp = smtp_server relay hosts;
      imap = smtp_server relay hosts;
      ldap = ldap;
      ntp = ntp;
      xmpp = xmpp;
    })
