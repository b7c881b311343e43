-- ===== src/FuncHosts/Roles.antt =====
-- How the dicts of 10_funchosts.py fit together.
use umbrella_linux.Base.{
  ◌≡◌, refl, ◌≢◌, true, false, List, [], ◌∷◌, Option, none, some, Text, ok, fold_result, ◌==◌,
  text_eq, option_eq, if◌then◌else◌, arith, >>=-eq-ok, ok-injective, type_error, subst, In,
  fold_source, ◌⊎◌, inl, inr, ap, sym, ◌∙◌, ==_iff,
}
use umbrella_linux.Base.Dict.{insert, lookup, lookup-insert, lookup-nil}
use umbrella_linux.Text.{codes}
use umbrella_linux.Xml.{Dom, find_text, find_str}
use umbrella_linux.FuncHosts.{Hosts, no_hosts, full_name, note_server, read_servers}

abbrev pub full_name_of : Text → Option Text → Option Text
full_name_of domain_name none = none
full_name_of domain_name (some short) = some (full_name domain_name short)

-- The function of each host is one that has a host.
abbrev pub Known : Hosts → Option (Option Text) → Type 0
Known hosts none = Unit
Known hosts (some function) = lookup function hosts.funchosts ≢ none

-- The dicts after a server is noted.
abbrev with_server : Text → Text → Option Text → Hosts → Hosts
with_server domain_name short function hosts = record {
  funchosts = insert function (full_name domain_name short) hosts.funchosts;
  funchostsshort = insert function short hosts.funchostsshort;
  hostfuncs = insert (full_name domain_name short) function hosts.hostfuncs;
}

Known-later :
    (domain_name short : Text) (function : Option Text) (s : Hosts) (o : Option (Option Text))
    → Known s o
    → Known (with_server domain_name short function s) o
Known-later domain_name short function s none k = tt
Known-later domain_name short function s (some g) k =
    ground (arith, lookup-insert g function (full_name domain_name short) s.funchosts)

Known-new :
    (domain_name short : Text) (function : Option Text) (s : Hosts)
    → Known (with_server domain_name short function s) (some function)
Known-new domain_name short function s =
    ground (arith, lookup-insert function function (full_name domain_name short) s.funchosts)

Known-with_server :
    (domain_name short name : Text) (function : Option Text) (s : Hosts)
    → Known s (lookup name s.hostfuncs)
    → Known
        (with_server domain_name short function s)
        (lookup name (insert (full_name domain_name short) function s.hostfuncs))
Known-with_server domain_name short name function s k =
    rw (lookup-insert name (full_name domain_name short) function s.hostfuncs)
      (elim (name == full_name domain_name short)
        as (λ b.
          Known (with_server domain_name short function s)
            (if b then some function else lookup name s.hostfuncs)) [
              | true ↦ Known-new domain_name short function s
              | false ↦ Known-later domain_name short function s (lookup name s.hostfuncs) k
            ])

module _ (d : Dom) (domain_name : Text) (function : Option Text) (name : Text) where
  -- The host of the function is its short name completed, and the function of the host has a host.
  abbrev pub IsConsistent : Hosts → Type 0
  IsConsistent hosts =
      (lookup function hosts.funchosts
        ≡ full_name_of domain_name (lookup function hosts.funchostsshort))
      × Known hosts (lookup name hosts.hostfuncs)

  with_server-IsConsistent :
      (s : Hosts) (short : Text) (g : Option Text)
      → IsConsistent s
      → IsConsistent (with_server domain_name short g s)
  with_server-IsConsistent s short g (same, known) = (
    ground (
      arith,
      lookup-insert function g (full_name domain_name short) s.funchosts,
      lookup-insert function g short s.funchostsshort,
    ),
    Known-with_server domain_name short name g s known,
  )

  note_server-IsConsistent :
      (s s' : Hosts) (e : d.Element)
      → note_server d domain_name s e ≡ ok s'
      → IsConsistent s
      → IsConsistent s'
  unfolding note_server
  note_server-IsConsistent s s' e h c =
      let (short, e1, h1) = >>=-eq-ok (find_str d type_error e (codes "name")) _ h in
      let (g, e2, h2) = >>=-eq-ok (find_text d e (codes "function")) _ h1 in
      subst IsConsistent (ok-injective _ s' h2) (with_server-IsConsistent s short g c)

  all-IsConsistent :
      (l : List d.Element) (s s' : Hosts)
      → fold_result (note_server d domain_name) s l ≡ ok s'
      → IsConsistent s
      → IsConsistent s'
  all-IsConsistent [] s s' h c = subst IsConsistent (ok-injective s s' h) c
  all-IsConsistent (e ∷ l) s s' h c =
      let (t, first, rest) = >>=-eq-ok (note_server d domain_name s e) _ h in
      all-IsConsistent l t s' rest (note_server-IsConsistent s t e first c)

  -- Once the servers are read, `funchosts` has for every function the name of `funchostsshort`
  -- completed by the domain, and for every host in `hostfuncs`, its function has a host.
  pub read_servers-IsConsistent :
      (root : d.Element) (hosts : Hosts)
      → read_servers d domain_name root ≡ ok hosts
      → IsConsistent hosts
  unfolding read_servers
  read_servers-IsConsistent root hosts h =
      all-IsConsistent (d.findall root (codes "server")) no_hosts hosts h
        (unfold lookup in refl, unfold lookup in tt)

module _ (d : Dom) (domain_name : Text) (function : Option Text) where
  HasHost : Hosts → Type 0
  HasHost s = (host : Text) × (lookup function s.funchosts ≡ some host)

  note_server_source :
      (s s' : Hosts) (e : d.Element)
      → note_server d domain_name s e ≡ ok s'
      → HasHost s'
      → HasHost s ⊎ (find_text d e (codes "function") ≡ ok function)
  unfolding note_server HasHost
  note_server_source s s' e h (host, at) =
      let (short, e1, h1) = >>=-eq-ok (find_str d type_error e (codes "name")) _ h in
      let (g, e2, h2) = >>=-eq-ok (find_text d e (codes "function")) _ h1 in
      let new = ap (λ z. lookup function z.funchosts) (ok-injective _ s' h2) in
      let found = lookup-insert function g (full_name domain_name short) s.funchosts in
      elim (option_eq.dec function g) [
        | yes same ↦ inr (e2 ∙ ap ok (sym same))
        | no other ↦ inl (host, ground (arith, new, found, ==_iff function g))
      ]

  -- A function that has a host is that of a server.
  pub read_servers_source :
      (root : d.Element) (hosts : Hosts) (host : Text)
      → read_servers d domain_name root ≡ ok hosts
      → lookup function hosts.funchosts ≡ some host
      → (server : d.Element) × In server (d.findall root (codes "server"))
        × (find_text d server (codes "function") ≡ ok function)
  unfolding read_servers HasHost
  read_servers_source root hosts host h at =
      elim (fold_source (note_server d domain_name) HasHost
        (λ e. find_text d e (codes "function") ≡ ok function) note_server_source
        (d.findall root (codes "server")) no_hosts hosts h (host, at)) [
          | inl (_, old) ↦ absurd (cc (old, lookup-nil {V = Text} function))
          | inr found ↦ found
        ]
