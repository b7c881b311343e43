-- ===== src/MainZone/Agreement.antt =====
-- The zone of the main domain and the reverse zones agree, where both are computed from umbrella.xml.
use umbrella_linux.Base.{
  ℕ, ◌≤◌, ◌<◌, ◌≡◌, refl, sym, ◌∙◌, subst, true, false, ◌⊎◌, List, [], Option, none, some, Text,
  text_eq, option_eq, ok, In, contains,
}
use mathlib.Core.Option.{some-injective}
use umbrella_linux.Base.Dict.{lookup, values}
use umbrella_linux.Xml.{Dom}
use umbrella_linux.Net.{Network, network_eq, has_address}
use umbrella_linux.FuncHosts.{full_name}
use umbrella_linux.FuncHosts.Roles.{full_name_of, read_servers-IsConsistent}
use umbrella_linux.RevZones.{find_classful, is_served}
use umbrella_linux.RevZones.Names.{reverse_name}
use umbrella_linux.ReverseZones.{Setting, ReverseZone, reverse_zones}
use umbrella_linux.ReverseZones.Scripts.{Client}
use umbrella_linux.ReverseZones.Delegated.{IsInner}
use umbrella_linux.ReverseZones.Resolved.{LeadsTo}
use umbrella_linux.ReverseZones.Template.{read_setting, read_setting-LeadsTo, read_setting-IsRead}
use umbrella_linux.MainZone.{Extras, Line, address, main_lines}
use umbrella_linux.MainZone.Lines.{target_of}
use umbrella_linux.MainZone.Aliases.{AreNamed, main_lines-address, target-HasAddress}

read_setting-AreNamed :
    (d : Dom) (client : Client d) (root : d.Element) (timestamp : Text) (s : Setting)
    → read_setting d client root timestamp ≡ ok s
    → AreNamed s
read_setting-AreNamed d client root timestamp s h f =
    let read = read_setting-IsRead d client root timestamp s h in
    (read_servers-IsConsistent d s.domain_name f [] root s.hosts read.servers).0

-- In the part of the zone of the main domain above its subdomains, every name that an NS, MX, CNAME or
-- SRV line refers to has an address in the same part, where none of the scripts raises that the
-- template of the reverse zones includes.
pub read_setting-target :
    (d : Dom) (client : Client d) (root : d.Element) (timestamp : Text) (s : Setting) (x : Extras)
    (lines : List Line) (line : Line) (name : Text)
    → read_setting d client root timestamp ≡ ok s
    → main_lines s x ≡ ok lines
    → In line lines
    → target_of line ≡ some name
    → (a : ℕ) × In (address name a) lines
read_setting-target d client root timestamp s x lines line name h made =
    target-HasAddress s x lines made (read_setting-AreNamed d client root timestamp s h) line name

short_name :
    (domain : Text) (o : Option Text) (host : Text)
    → full_name_of domain o ≡ some host
    → (short : Text) × (o ≡ some short) × (full_name domain short ≡ host)
short_name domain none host h = absurd (cc)
short_name domain (some short) host h =
    (short, refl, some-injective (full_name domain short) host h)

-- The two ways agree: where none of the scripts raises that the template of the reverse zones includes,
-- and the zone of the main domain, down to its subdomains, and all files of the reverse zones can be
-- printed, PTR and CNAME records of these files lead from the reverse name of the main address of a
-- server to a short name with the main domain, and the zone of the main domain has this address for
-- the short name. It is not said in which zone a name server looks a name up. The address lies in a network that reverse zones are made for, and either the zone of the
-- network is classful, or the classful network around it is none of the system's and the address
-- is neither the first nor the last one of the network; the classful network has one, two or three
-- octets.
pub main_lines-LeadsTo :
    (d : Dom) (client : Client d) (root : d.Element) (timestamp : Text) (s : Setting) (x : Extras)
    (lines : List Line) (zones : List ReverseZone) (t : Text) (n netc : Network)
    (function : Option Text) (a : ℕ) (host : Text)
    → read_setting d client root timestamp ≡ ok s
    → main_lines s x ≡ ok lines
    → reverse_zones s ≡ ok zones
    → In (t, n) s.networks
    → is_served t ≡ true
    → find_classful n s.classfulnets ≡ some netc
    → 8 ≤ netc.prefixlen
    → netc.prefixlen < 32
    → (n ≡ netc) ⊎ ((contains (values s.networks) netc ≡ false) × IsInner n a)
    → lookup function s.hosts.funchosts ≡ some host
    → lookup function s.funcifs ≡ some a
    → has_address n a ≡ true
    → (short : Text) × (full_name s.domain_name short ≡ host)
      × In (address short a) lines
      × LeadsTo zones (reverse_name a) host
main_lines-LeadsTo d client root timestamp s x lines zones t n netc function a host h made printed i
      served found low high cases named at inside =
    let consistent = read_setting-AreNamed d client root timestamp s h in
    let (short, short_at, full) =
      short_name s.domain_name (lookup function s.hosts.funchostsshort) host
        (sym (consistent function) ∙ named) in
    let (b, b_at, member) = main_lines-address s x lines made consistent function short short_at in
    let same : b ≡ a = some-injective b a (sym b_at ∙ at) in
    (
      short,
      full,
      subst (λ z. In (address short z) lines) same member,
      read_setting-LeadsTo d client root timestamp s zones t n netc function a host h printed i
          served found low high cases named at inside,
    )
