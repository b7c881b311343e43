-- ===== src/FuncHosts/Found.antt =====
-- When the services of 10_funchosts.py are found.
use umbrella_linux.Base.{
  ◌≡◌, refl, ◌↔◌, Bool, true, false, ◌&&◌, ◌||◌, [], ◌∷◌, Option, some, Text, Result, ok, err,
  key_error, or_raise, ◌>>=◌, ◌==◌, text_eq, option_eq, if◌then◌else◌, ap, ◌∙◌,
}
use umbrella_linux.Base.Dict.{Dict, lookup, has_key}
use umbrella_linux.Text.{codes}
use umbrella_linux.Xml.{Dom, find_text, has_child}
use umbrella_linux.FuncHosts.{
  Hosts, host_of, has_host, ldap_uris, ntp_server, xmpp_server, find_services,
}

-- A result that is there when a test holds, and a KeyError otherwise.
abbrev FoundIf {ℓ} : {A : Type ℓ} → Bool → Result A → Type ℓ
FoundIf {A = A} true r = (a : A) × (r ≡ ok a)
FoundIf false r = r ≡ err key_error

FoundIf-key_error :
    {A : Type 0} (b : Bool) (r : Result A) → FoundIf b r → (r ≡ err key_error) ↔ (b ≡ false)
FoundIf-key_error true r (a, e) = (λ h. cc, λ h. cc)
FoundIf-key_error false r e = (λ h. refl, λ h. e)

-- Results of which the first two need the same.
sequence_FoundIf :
    {A B C D : Type 0} (b c : Bool) (l : Result A) (n : Result B) (x : Result C) (f : A → B → C → D)
    → FoundIf b l
    → FoundIf b n
    → FoundIf c x
    → FoundIf (b && c) (l >>= λ p. n >>= λ q. x >>= λ r. ok (f p q r))
sequence_FoundIf true true l n x f (p, e) (q, k) (r, g) = (f p q r, rw (e, k, g) refl)
sequence_FoundIf true false l n x f (p, e) (q, k) g = rw (e, k, g) refl
sequence_FoundIf false c l n x f e k g = rw e refl

then_FoundIf :
    {A B : Type 0} (b : Bool) (r : Result A) (f : A → Result B)
    → FoundIf b r
    → ((a : A) → (c : B) × (f a ≡ ok c))
    → FoundIf b (r >>= f)
then_FoundIf true r f (a, e) step = let (c, q) = step a in (c, ap (λ z. z >>= f) e ∙ q)
then_FoundIf false r f e step = rw e refl

choose_found :
    {A : Type 0} (wanted b : Bool) (r : Result A) (c : A)
    → FoundIf b r
    → (a : A) × ((if b && wanted then r else ok c) ≡ ok a)
choose_found true true r c (a, e) = (a, e)
choose_found false true r c (a, e) = (c, refl)
choose_found wanted false r c e = (c, refl)

either_found :
    {A : Type 0} (b c : Bool) (r s : Result A)
    → FoundIf b r
    → FoundIf c s
    → FoundIf (b || c) (if b then r else s)
either_found true c r s h k = h
either_found false c r s h k = k

by_lookup :
    (k : Option Text) (dict : Dict (Option Text) Text)
    → FoundIf (has_key k dict) (or_raise key_error (lookup k dict))
unfolding has_key lookup
by_lookup k [] = refl
by_lookup k ((j, v) ∷ dict) =
    elim (k == j)
      as (λ b.
        FoundIf (if b then true else has_key k dict)
          (or_raise key_error (if b then some v else lookup k dict))) [
            | true ↦ (v, refl)
            | false ↦ by_lookup k dict
          ]

host_of-FoundIf :
    (function : Text) (hosts : Hosts) → FoundIf (has_host function hosts) (host_of function hosts)
unfolding has_host host_of
host_of-FoundIf function hosts = by_lookup (some function) hosts.funchosts

ldap_uris-FoundIf : (hosts : Hosts) → FoundIf (has_host (codes "config") hosts) (ldap_uris hosts)
unfolding ldap_uris
ldap_uris-FoundIf hosts =
    then_FoundIf _ _ _ (host_of-FoundIf (codes "config") hosts) (λ c. (_, refl))

ntp_server-FoundIf :
    (wanted : Bool) (hosts : Hosts)
    → FoundIf (has_host (codes "config") hosts) (ntp_server wanted hosts)
unfolding ntp_server
ntp_server-FoundIf wanted hosts =
    then_FoundIf _ _ _ (host_of-FoundIf (codes "config") hosts)
      (λ c. choose_found wanted _ _ c (host_of-FoundIf (codes "vmhost") hosts))

xmpp_server-FoundIf :
    (hosts : Hosts)
    → FoundIf
        (has_host (codes "DMZxmpp") hosts || has_host (codes "proxy") hosts)
        (xmpp_server hosts)
unfolding xmpp_server
xmpp_server-FoundIf hosts =
    either_found (has_host (codes "DMZxmpp") hosts) (has_host (codes "proxy") hosts) _ _
      (host_of-FoundIf (codes "DMZxmpp") hosts) (host_of-FoundIf (codes "proxy") hosts)

-- Where umbrella.xml has an SMTP_outbound_relay, the script raises a KeyError exactly if there
-- is no configuration server, or neither a server for XMPP nor a proxy.
pub find_services-key_error :
    (d : Dom) (root : d.Element) (relay : Option Text) (hosts : Hosts)
    → find_text d root (codes "SMTP_outbound_relay") ≡ ok relay
    → (find_services d root hosts ≡ err key_error) ↔ (
        has_host (codes "config") hosts
          && (has_host (codes "DMZxmpp") hosts || has_host (codes "proxy") hosts)
        ≡ false)
unfolding find_services
find_services-key_error d root relay hosts h = FoundIf-key_error _ _ (
    rw h (
      sequence_FoundIf _ _ _ _ _ _ (ldap_uris-FoundIf hosts)
        (ntp_server-FoundIf (has_child d root (codes "NTP_server_on_vmhost")) hosts)
        (xmpp_server-FoundIf hosts)))
