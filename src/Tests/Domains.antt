-- ===== src/Tests/Domains.antt =====
-- A run of the canonical host name.
use umbrella_linux.Base.{
  ◌≡◌, refl, true, [], ◌∷◌, ok, nat_eq, text_eq, option_eq, ℕ_discrete, text_discrete,
}
use umbrella_linux.Base.Dict.{lookup, insert, has_key}
use umbrella_linux.Text.{codes, strip}
use umbrella_linux.Xml.{has_child, find_text}
use umbrella_linux.BaseParams.{stripped_texts}
use umbrella_linux.FuncHosts.{no_hosts, has_host}
use umbrella_linux.Firewall.{stripped_child}
use umbrella_linux.Canonical.{
  Canonical, find_canonical, note_zone, note_own_zone, note_rev_dns, default_canonical,
  discard_host, as_set,
}
use umbrella_linux.Canonical.Chosen.{find_canonical-IsChosen, IsChosen}
use umbrella_linux.Tests.Tree.{empty, Xml, named, xml, leaf, branch, root_of}

-- A domain with a revDNS, and one without.
abbrev domains : Xml
domains = root_of (
    branch (codes "domain")
      (leaf (codes "name") (codes "b.org") (leaf (codes "revDNS") (codes "post") empty))
      (branch (codes "domain")
        (leaf (codes "name") (codes "a.org") (leaf (codes "alias") (codes "x") empty)) empty))

abbrev canonical : Canonical
canonical = record {
  hostname = codes "post";
  domain = codes "b.org";
  seen = true;
  secondary = (codes "b.org", []) ∷ (codes "a.org", []) ∷ [];
  aliases = (codes "b.org", []) ∷ (codes "a.org", codes "x" ∷ []) ∷ [];
}

domains_read : find_canonical xml no_hosts (codes "a.org") domains ≡ ok canonical
unfolding find_canonical note_zone note_own_zone note_rev_dns default_canonical discard_host as_set
    has_host has_key lookup insert stripped_child stripped_texts find_text has_child strip named
    option_eq text_eq text_discrete nat_eq ℕ_discrete
domains_read = refl

find_canonical-IsChosen_example :
    IsChosen xml (codes "a.org") (named (codes "domain") domains.children) (codes "b.org")
find_canonical-IsChosen_example =
    find_canonical-IsChosen xml no_hosts (codes "a.org") domains canonical domains_read
