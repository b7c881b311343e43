-- ===== src/Firewall/Flags.antt =====
-- Python/25_firewall.py: the flags that firewall.xml and the servers' functions decide.
use umbrella_linux.Base.{
  ◌≡◌, refl, inl, inr, Option-cases, Bool, false, ◌&&◌, ◌||◌, none, some, arith, text_eq, option_eq,
}
use umbrella_linux.Text.{codes}
use umbrella_linux.Xml.{Dom, has_child}
use umbrella_linux.FuncHosts.{Hosts, has_host}
use umbrella_linux.Firewall.Routes.{ssh_to_router-ssh_to_ltsp}
use umbrella_linux.Firewall.{ssh_to_router, ssh_to_ltsp}

pub record Flags : Type 0 where
  pub ssh_from_ext : Bool
  pub ssh_from_int : Bool
  pub forward_ssh_to_ltsp : Bool
  pub to_ltsp : Bool
  pub forward_smtps_imaps_to_mail : Bool
  pub smtps_imaps_to_mail : Bool
  pub to_router : Bool
  pub auth_in_dmz : Bool
  pub www_homes : Bool
  pub mail_in_dmz : Bool
  pub admin_from_vpn : Bool
  pub ssh_to_sec : Bool
  pub pub_nfs_from_sec : Bool
  pub jabber_from_sec : Bool
  pub mail_from_sec : Bool
  pub vnc_in_gui_sessions : Bool
  pub transparent_proxy : Bool
  pub slow_down_dynamic_hosts : Bool

-- The second flag holds only where the first does.
abbrev pub OnlyIf : Bool → Bool → Type 0
OnlyIf a b = (a && b) ≡ b

and-OnlyIf : (a b : Bool) → OnlyIf b (a && b)
and-OnlyIf a b = ground arith

ssh_to_ltsp-OnlyIf : (e i f l : Bool) → OnlyIf l (ssh_to_ltsp e i f l)
unfolding ssh_to_ltsp
ssh_to_ltsp-OnlyIf e i f l = ground arith

module _ (d : Dom) where
  -- `www_homes`: a child of `auth_in_DMZ`, where that is there.
  unfoldable pub homes_in_www : d.Element → Bool
  unfolding has_child
  homes_in_www root = elim (d.find root (codes "auth_in_DMZ")) [
    | none ↦ false
    | some e ↦ has_child d e (codes "www_homes")
  ]

  -- The flags, from the root of firewall.xml and the servers' functions.
  unfoldable pub read_flags : d.Element → Hosts → Flags
  unfolding homes_in_www
  read_flags root hosts =
      let from_ext = has_child d root (codes "ssh_from_ext") in
      let from_int = has_child d root (codes "ssh_from_int") in
      let forward = has_child d root (codes "forward_ssh_to_ltsp") in
      let forward_mail = has_child d root (codes "forward_smtps_imaps_to_mail") in
      let has_ltsp = has_host (codes "ltsp") hosts in
      record {
        ssh_from_ext = from_ext;
        ssh_from_int = from_int;
        forward_ssh_to_ltsp = forward;
        to_ltsp = ssh_to_ltsp from_ext from_int forward has_ltsp;
        forward_smtps_imaps_to_mail = forward_mail;
        smtps_imaps_to_mail = forward_mail && has_host (codes "mail") hosts;
        to_router = ssh_to_router from_ext from_int forward has_ltsp;
        auth_in_dmz = has_child d root (codes "auth_in_DMZ");
        www_homes = homes_in_www root;
        mail_in_dmz = has_child d root (codes "mail_in_DMZ");
        admin_from_vpn = has_child d root (codes "admin_from_VPN");
        ssh_to_sec = has_child d root (codes "ssh_to_sec");
        pub_nfs_from_sec = has_child d root (codes "pub_nfs_from_sec");
        jabber_from_sec = has_child d root (codes "jabber_from_sec");
        mail_from_sec = has_child d root (codes "mail_from_sec");
        vnc_in_gui_sessions = has_child d root (codes "vnc_in_gui_sessions");
        transparent_proxy = has_child d root (codes "transparent_proxy");
        slow_down_dynamic_hosts = has_child d root (codes "slow_down_dynamic_hosts");
      }

  homes_in_www-OnlyIf :
      (root : d.Element) → OnlyIf (has_child d root (codes "auth_in_DMZ")) (homes_in_www root)
  unfolding homes_in_www has_child
  homes_in_www-OnlyIf root = elim (Option-cases (d.find root (codes "auth_in_DMZ"))) [
    | inl missing ↦ rw (missing, has_child, homes_in_www) refl
    | inr (e, there') ↦ rw (there', has_child, homes_in_www) refl
  ]

  -- SSH connections are served exactly if they are let in from outside, by the router or by the
  -- terminal server and never by both; they go to the terminal server, and mail connections to the
  -- mail server, only where there is such a server, and home pages are served only where there is
  -- authentication in the DMZ.
  pub read_flags-OnlyIf :
      (root : d.Element) (hosts : Hosts)
      → let f = read_flags root hosts in
        ((f.to_router || f.to_ltsp) ≡ (f.ssh_from_ext || f.ssh_from_int))
        × ((f.to_router && f.to_ltsp) ≡ false)
        × OnlyIf (has_host (codes "ltsp") hosts) f.to_ltsp
        × OnlyIf (has_host (codes "mail") hosts) f.smtps_imaps_to_mail
        × OnlyIf f.auth_in_dmz f.www_homes
  unfolding read_flags
  read_flags-OnlyIf root hosts =
      let (served, never_both) =
        ssh_to_router-ssh_to_ltsp (has_child d root (codes "ssh_from_ext"))
          (has_child d root (codes "ssh_from_int")) (has_child d root (codes "forward_ssh_to_ltsp"))
          (has_host (codes "ltsp") hosts) in
      (
        served,
        never_both,
        ssh_to_ltsp-OnlyIf (has_child d root (codes "ssh_from_ext"))
            (has_child d root (codes "ssh_from_int"))
            (has_child d root (codes "forward_ssh_to_ltsp")) (has_host (codes "ltsp") hosts),
        and-OnlyIf (has_child d root (codes "forward_smtps_imaps_to_mail"))
            (has_host (codes "mail") hosts),
        homes_in_www-OnlyIf root,
      )
