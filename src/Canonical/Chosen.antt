-- ===== src/Canonical/Chosen.antt =====
-- Which domain the canonical host name is in.
use umbrella_linux.Base.{
  ◌≡◌, refl, ◌⊎◌, inl, inr, Bool, true, false, not, ◌&&◌, List, [], ◌∷◌, Option, none, some, Text,
  if◌then◌else◌, ok, err, fold_result, keep, after_bind, >>=-eq-ok, ok-injective, subst, sym, ap,
  ◌∙◌, arith, Bool-cases, Exc,
}
use umbrella_linux.Text.{codes}
use umbrella_linux.Xml.{Dom, has_child}
use umbrella_linux.BaseParams.{stripped_texts}
use umbrella_linux.FuncHosts.{Hosts}
use umbrella_linux.Firewall.{stripped_child}
use umbrella_linux.Canonical.{
  Canonical, as_set, discard_host, default_canonical, note_rev_dns, note_own_zone, note_zone,
  find_canonical,
}

unless_ok :
    (b : Bool) (x : Exc) (c s' : Canonical)
    → (if b then err x else ok c) ≡ ok s'
    → (b ≡ false) × (c ≡ s')
unless_ok true x c s' h = absurd (cc)
unless_ok false x c s' h = (refl, ok-injective c s' h)

module _ (d : Dom) where
  -- A domain that the system is the master of and that has a `revDNS`.
  abbrev pub names_canonical : d.Element → Bool
  names_canonical e = not (has_child d e (codes "master")) && has_child d e (codes "revDNS")

  -- What a round may do: leave the choice as it is, or make it.
  abbrev Step : Canonical → d.Element → Canonical → Type 0
  Step s e s' =
      ((names_canonical e ≡ false) × (s'.domain ≡ s.domain) × (s'.seen ≡ s.seen))
      ⊎ ((names_canonical e ≡ true)
          × (s.seen ≡ false)
          × (s'.seen ≡ true)
          × (stripped_child d e (codes "name") ≡ ok s'.domain))

  chosen :
      (r : d.Element) (name : Text) (t s' : Canonical)
      → note_rev_dns d name (some r) t ≡ ok s'
      → (t.seen ≡ false) × (name ≡ s'.domain) × (true ≡ s'.seen)
  unfolding note_rev_dns
  chosen r name t s' h =
      let (unseen, new) = unless_ok t.seen _ _ s' h in
      (unseen, ap (λ z. z.domain) new, ap (λ z. z.seen) new)

  note_rev_dns-Step :
      (e : d.Element) (o : Option d.Element) (name : Text) (s t s' : Canonical)
      → has_child d e (codes "master") ≡ false
      → d.find e (codes "revDNS") ≡ o
      → stripped_child d e (codes "name") ≡ ok name
      → t.domain ≡ s.domain
      → t.seen ≡ s.seen
      → note_rev_dns d name o t ≡ ok s'
      → Step s e s'
  unfolding note_rev_dns has_child
  note_rev_dns-Step e none name s t s' own missing is same seen h =
      let new = ok-injective t s' h in
      inl (ground arith, ap (λ z. z.domain) (sym new) ∙ same, ap (λ z. z.seen) (sym new) ∙ seen)
  note_rev_dns-Step e (some r) name s t s' own there' is same seen h =
      let (unseen, domain, marked) = chosen r name t s' h in
      inr (ground arith, sym seen ∙ unseen, sym marked, is ∙ ap ok domain)

  note_own_zone-Step :
      (hosts : Hosts) (s s' : Canonical) (e : d.Element)
      → has_child d e (codes "master") ≡ false
      → note_own_zone d hosts s e ≡ ok s'
      → Step s e s'
  unfolding note_own_zone
  note_own_zone-Step hosts s s' e own h =
      let (name, is, h1) = >>=-eq-ok (stripped_child d e (codes "name")) _ h in
      after_bind (stripped_texts d e (codes "alias")) _ s'
        (λ aliases.
          after_bind (discard_host (codes "DMZwww") hosts (as_set aliases)) _ s' (λ without_www.
            after_bind (discard_host (codes "mail") hosts without_www) _ s' (λ without_mail.
              after_bind (stripped_texts d e (codes "slave")) _ s' (λ slaves.
                note_rev_dns-Step e (d.find e (codes "revDNS")) name s _ s' own refl is refl
                  refl))))
        h1

  unchanged :
      (hosts : Hosts) (s s' : Canonical) (e : d.Element)
      → has_child d e (codes "master") ≡ true
      → note_zone d hosts s e ≡ ok s'
      → s ≡ s'
  unfolding note_zone
  unchanged hosts s s' e foreign h = ground arith

  owned :
      (hosts : Hosts) (s s' : Canonical) (e : d.Element)
      → has_child d e (codes "master") ≡ false
      → note_zone d hosts s e ≡ ok s'
      → note_own_zone d hosts s e ≡ ok s'
  unfolding note_zone
  owned hosts s s' e own h = ground arith

  note_zone-Step :
      (hosts : Hosts) (s s' : Canonical) (e : d.Element)
      → note_zone d hosts s e ≡ ok s'
      → Step s e s'
  note_zone-Step hosts s s' e h = elim (Bool-cases (has_child d e (codes "master"))) [
    | inl foreign ↦
        let new = unchanged hosts s s' e foreign h in
        inl (ground arith, ap (λ z. z.domain) (sym new), ap (λ z. z.seen) (sym new))
    | inr own ↦ note_own_zone-Step hosts s s' e own (owned hosts s s' e own h)
  ]

  -- The domain of a result: that of the only own domain that names a canonical host, or the one that
  -- was there if there is none.
  abbrev pub IsChosen : Text → List d.Element → Text → Type 0
  IsChosen before l domain =
      ((keep names_canonical l ≡ []) × (domain ≡ before))
      ⊎ ((e : d.Element) × (keep names_canonical l ≡ e ∷ [])
          × (stripped_child d e (codes "name") ≡ ok domain))

  -- A choice that was made before stays.
  abbrev Follows : Bool → Text → List d.Element → Text → Type 0
  Follows true before l domain = (keep names_canonical l ≡ []) × (domain ≡ before)
  Follows false before l domain = IsChosen before l domain

  skip-Follows :
      (b : Bool) (before domain : Text) (e : d.Element) (l : List d.Element)
      → names_canonical e ≡ false
      → Follows b before l domain
      → Follows b before (e ∷ l) domain
  skip-Follows true before domain e l no_rev f = rw no_rev f
  skip-Follows false before domain e l no_rev f = rw no_rev f

  take-IsChosen :
      (before after domain : Text) (e : d.Element) (l : List d.Element)
      → names_canonical e ≡ true
      → stripped_child d e (codes "name") ≡ ok after
      → Follows true after l domain
      → IsChosen before (e ∷ l) domain
  take-IsChosen before after domain e l rev is (rest, same) =
      inr (e, rw rev (ap (λ k. e ∷ k) rest), is ∙ ap ok (sym same))

  none_left : (b : Bool) (before domain : Text) → domain ≡ before → Follows b before [] domain
  none_left true before domain same = (refl, same)
  none_left false before domain same = inl (refl, same)

  all-Follows :
      (hosts : Hosts) (l : List d.Element) (s last : Canonical)
      → fold_result (note_zone d hosts) s l ≡ ok last
      → Follows s.seen s.domain l last.domain
  all-Follows hosts [] s last h =
      none_left s.seen s.domain last.domain (ap (λ z. z.domain) (sym (ok-injective s last h)))
  all-Follows hosts (e ∷ l) s last h =
      let (s', first, rest) = >>=-eq-ok (note_zone d hosts s e) _ h in
      let f = all-Follows hosts l s' last rest in
      elim (note_zone-Step hosts s s' e first) [
        | inl (no_rev, domain, seen) ↦ skip-Follows s.seen s.domain last.domain e l no_rev (
            subst (λ b. Follows b s.domain l last.domain) seen
              (subst (λ t. Follows s'.seen t l last.domain) domain f))
        | inr (rev, unseen, marked, is) ↦
            subst (λ b. Follows b s.domain (e ∷ l) last.domain) (sym unseen)
              (take-IsChosen s.domain s'.domain last.domain e l rev is
                (subst (λ b. Follows b s'.domain l last.domain) marked f))
      ]

  -- If the domains are accepted, at most one of those that the system is the master of has a
  -- revDNS, and the canonical domain is the name of that one, or the main domain if there is
  -- none.
  pub find_canonical-IsChosen :
      (hosts : Hosts) (domain_name : Text) (root : d.Element) (s : Canonical)
      → find_canonical d hosts domain_name root ≡ ok s
      → IsChosen domain_name (d.findall root (codes "domain")) s.domain
  unfolding find_canonical default_canonical
  find_canonical-IsChosen hosts domain_name root s h =
      all-Follows hosts (d.findall root (codes "domain")) (default_canonical hosts domain_name) s h
