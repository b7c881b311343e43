-- ===== src/MainZone/Aliases.antt =====
-- What the names in the zone of the main domain stand for.
use umbrella_linux.Base.{
  ℕ, ◌≡◌, refl, sym, ◌∙◌, ap, subst, inl, inr, List, [], Option, some, Text, ok, text_eq, option_eq,
  key_error, or_raise, or_raise-some, after_known, ok-injective, All-In, In, there, In-cons,
  In-append, In-append_right, map_result, Bool-cases,
}
use mathlib.Core.List.{flatten}
use mathlib.Core.Option.{some-injective}
use umbrella_linux.Base.Dict.{lookup, keys}
use umbrella_linux.Base.Places.{In-flatten, flatten-In, map_result-In, In-map_result}
use umbrella_linux.Text.{codes}
use umbrella_linux.FuncHosts.{has_host}
use umbrella_linux.FuncHosts.Roles.{full_name_of}
use umbrella_linux.ReverseZones.{Setting}
use umbrella_linux.ReverseZones.Pointed.{sorted_functions-In, In-keys}
use umbrella_linux.MainZone.{
  Extras, Line, server, origin, address, server_lines, mail_lines, main_lines,
}
use umbrella_linux.MainZone.Lines.{
  target_of, Aims, server_lines-IsServer, IsMade, main_lines-IsMade,
}

-- The name of every function with a host is in `funchostsshort`, and the other way round.
abbrev pub AreNamed : Setting → Type 0
AreNamed s =
    (f : Option Text)
    → lookup f s.hosts.funchosts ≡ full_name_of s.domain_name (lookup f s.hosts.funchostsshort)

module _ (s : Setting) (x : Extras) (lines : List Line) (made : main_lines s x ≡ ok lines)
    (named : AreNamed s) where
  In-servers : (line : Line) (m : IsMade s x lines) → In line (flatten m.servers) → In line lines
  In-servers line m i =
      subst (In line) m.all (there (there (In-append_right line m.mail (flatten m.servers) i)))

  -- The short name of every server has its main address.
  pub main_lines-address :
      (f : Option Text) (short : Text)
      → lookup f s.hosts.funchostsshort ≡ some short
      → (a : ℕ) × (lookup f s.funcifs ≡ some a) × In (address short a) lines
  main_lines-address f short at =
      let m = main_lines-IsMade s x lines made in
      let host = named f ∙ ap (full_name_of s.domain_name) at in
      let (part, is, i) = map_result-In (server_lines s x) f m.functions m.servers m.each (
        sorted_functions-In f (keys s.hosts.funchosts) m.functions m.sorted
          (In-keys f _ s.hosts.funchosts host)) in
      let one = server_lines-IsServer s x f part is in
      let same : one.short ≡ short = some-injective one.short short (sym one.named ∙ at) in
      (
        one.at,
        one.placed,
        subst (λ z. In (address z one.at) lines) same
            (In-servers (address one.short one.at) m (In-flatten _ part m.servers i one.listed)),
      )

  HasAddress : Text → Type 0
  HasAddress name = (a : ℕ) × In (address name a) lines

  short-HasAddress :
      (f : Option Text) (short : Text)
      → lookup f s.hosts.funchostsshort ≡ some short
      → HasAddress short
  unfolding HasAddress
  short-HasAddress f short at = let (a, _, i) = main_lines-address f short at in (a, i)

  Aims-HasAddress :
      (f : Option Text) (short name : Text) (line : Line)
      → lookup f s.hosts.funchostsshort ≡ some short
      → Aims short line
      → target_of line ≡ some name
      → HasAddress name
  Aims-HasAddress f short name line at (inl nothing) t = absurd (cc (nothing, t))
  Aims-HasAddress f short name line at (inr own) t =
      subst HasAddress (some-injective short name (sym own ∙ t)) (short-HasAddress f short at)

  mail_lines-HasAddress :
      (mail : List Line) (line : Line) (name : Text)
      → mail_lines s x ≡ ok mail
      → In line mail
      → target_of line ≡ some name
      → HasAddress name
  unfolding mail_lines
  mail_lines-HasAddress mail line name h i t = elim (Bool-cases (has_host (codes "mail") s.hosts)) [
    | inr absent ↦
        (let nothing = ok-injective [] mail (rw absent at h) in
          elim (subst (In line) (sym nothing) i) [ ])
    | inl present ↦
        after_known (or_raise key_error (lookup (some (codes "mail")) s.hosts.funchostsshort)) _
          mail
          (λ short at last.
            let three = subst (In line) (sym (ok-injective _ mail last)) i in
            Aims-HasAddress (some (codes "mail")) short name line
              (or_raise-some key_error _ short at)
              (All-In (Aims short) _ (inr refl, (inl refl, (inl refl, tt))) line three) t)
          (rw present at h)
  ]

  server-HasAddress :
      (servers : List (List Line)) (functions : List (Option Text)) (line : Line) (name : Text)
      → map_result (server_lines s x) functions ≡ ok servers
      → In line (flatten servers)
      → target_of line ≡ some name
      → HasAddress name
  server-HasAddress servers functions line name each i t =
      let (part, j, k) = flatten-In line servers i in
      let (f, _, is) = In-map_result (server_lines s x) part functions servers each j in
      let one = server_lines-IsServer s x f part is in
      Aims-HasAddress f one.short name line one.named (All-In (Aims one.short) part one.aims line k)
        t

  -- Every name that a line of the zone refers to has an address in the zone.
  pub target-HasAddress :
      (line : Line) (name : Text)
      → In line lines
      → target_of line ≡ some name
      → (a : ℕ) × In (address name a) lines
  unfolding HasAddress
  target-HasAddress line name i t =
      let m = main_lines-IsMade s x lines made in
      elim (In-cons line (server m.router) _ (subst (In line) (sym m.all) i)) [
        | inl e ↦
            Aims-HasAddress (some (codes "router")) m.router name line m.named
              (subst (Aims m.router) (sym e) (inr refl)) t
        | inr j ↦ elim (In-cons line (origin x.ip_address) _ j) [
          | inl e ↦ absurd (cc (ap target_of e, t))
          | inr k ↦ elim (In-append line m.mail (flatten m.servers) k) [
            | inl in_mail ↦ mail_lines-HasAddress m.mail line name m.mail_made in_mail t
            | inr in_servers ↦ server-HasAddress m.servers m.functions line name m.each in_servers t
          ]
        ]
      ]
