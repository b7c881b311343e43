-- ===== src/Canonical.antt =====
-- Python/30_networking.py: the canonical host name, the aliases and the secondary name servers of the
-- domains.
pub mod Chosen
use umbrella_linux.Base.{
  Bool, true, false, not, ◌&&◌, List, [], ◌∷◌, ◌++◌, Option, none, some, Text, ◌==◌, text_eq,
  option_eq, contains, if◌then◌else◌, Result, ok, err, key_error, template_error, or_raise,
  fold_result, keep, ◌>>=◌,
}
use umbrella_linux.Base.Dict.{Dict, insert, lookup}
use umbrella_linux.Text.{codes, strip}
use umbrella_linux.Xml.{Dom, has_child}
use umbrella_linux.BaseParams.{stripped_texts}
use umbrella_linux.FuncHosts.{Hosts, has_host}
use umbrella_linux.Firewall.{stripped_child}

-- `CANONICAL_hostname`, `CANONICAL_domain`, `revDNSseen`, `secondaryNameservers`, `hostname_aliases`
pub record Canonical : Type 0 where
  pub hostname : Text
  pub domain : Text
  pub seen : Bool
  pub secondary : Dict Text (List Text)
  pub aliases : Dict Text (List Text)

-- A set with the elements of a list.
unfoldable pub as_set : List Text → List Text
as_set [] = []
as_set (x ∷ l) = let rest = as_set l in if contains rest x then rest else x ∷ rest

-- The short name of a function's host is taken out of the aliases.
unfoldable pub discard_host : Text → Hosts → List Text → Result (List Text)
discard_host function hosts l =
    if has_host function hosts
    then (do
      short ← or_raise key_error (lookup (some function) hosts.funchostsshort)
      ok (keep (λ x. not (x == short)) l))
    else ok l

-- Before the loop.
unfoldable pub default_canonical : Hosts → Text → Canonical
default_canonical hosts domain_name = record {
  hostname = (elim (lookup (some (codes "DMZsmtp")) hosts.funchostsshort) [
    | none ↦ []
    | some short ↦ short
  ]);
  domain = domain_name;
  seen = false;
  secondary = [];
  aliases = [];
}

-- `CANONICAL_FQHN`
unfoldable pub canonical_fqhn : Canonical → Text
canonical_fqhn s = elim s.hostname [ [] ↦ s.domain | c ∷ t ↦ (c ∷ t) ++ codes "." ++ s.domain ]

module _ (d : Dom) where
  -- The `revDNS` of a domain, which only one can have.
  unfoldable pub note_rev_dns : Text → Option d.Element → Canonical → Result Canonical
  note_rev_dns name none s = ok s
  note_rev_dns name (some e) s =
      if s.seen
      then err (
          template_error (
            codes
              "\"revDNS\" is specified for multiple domain names, can only be specified for one."))
      else ok (record s {
        hostname = (elim (d.text e) [ none ↦ [] | some t ↦ strip t ]);
        domain = name;
        seen = true;
      })

  -- A domain that the system is the master of.
  unfoldable pub note_own_zone : Hosts → Canonical → d.Element → Result Canonical
  unfolding note_rev_dns discard_host as_set
  note_own_zone hosts s e = do
    name ← stripped_child d e (codes "name")
    aliases ← stripped_texts d e (codes "alias")
    without_www ← discard_host (codes "DMZwww") hosts (as_set aliases)
    without_mail ← discard_host (codes "mail") hosts without_www
    slaves ← stripped_texts d e (codes "slave")
    note_rev_dns name (d.find e (codes "revDNS")) (record s {
      aliases = insert name without_mail s.aliases;
      secondary = insert name (as_set slaves) s.secondary;
    })

  -- One round of the loop over the domains.
  unfoldable pub note_zone : Hosts → Canonical → d.Element → Result Canonical
  unfolding note_own_zone
  note_zone hosts s e = if has_child d e (codes "master") then ok s else note_own_zone hosts s e

  unfoldable pub find_canonical : Hosts → Text → d.Element → Result Canonical
  unfolding note_zone default_canonical
  find_canonical hosts domain_name root =
      fold_result (note_zone hosts) (default_canonical hosts domain_name)
        (d.findall root (codes "domain"))
