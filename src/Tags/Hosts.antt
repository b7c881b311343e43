-- ===== src/Tags/Hosts.antt =====
-- The four walks for a workstation agree on whether a unit of the organization has its address.
use mathlib.Core.Bool.{false≢true}
use umbrella_linux.Base.{
  ℕ, ◌≡◌, refl, sym, ◌∙◌, ap, subst, Bool, true, false, List, [], ◌∷◌, Option, none, some, Text, ok,
  >>=-eq-ok, ok-injective,
}
use umbrella_linux.Text.{codes}
use umbrella_linux.Xml.{Dom}
use umbrella_linux.Organization.Chains.{Chain, stop, down}
use umbrella_linux.Tags.{
  Tags, innermost, accumulate_tags, Found, unmatched, matched, Workstation, keep_pair, or_none,
  read_workstation,
}
use umbrella_linux.Tags.Walk.{Outermost, match, pass, Tests, Means, NoMatch, accumulate_tags-Means}

module _ (d : Dom) (ip : Option ℕ) where
  -- The unit at the end of the way down.
  Outermost-Chain :
      (name : Text) {e : d.Element} {l : List d.Element}
      → Outermost d ip name e l
      → (u : d.Element) × Chain d e l u × Tests d ip name u true
  Outermost-Chain name (match {e = e} t) = (e, stop e, t)
  Outermost-Chain name (pass t i o) = let (u, c, h) = Outermost-Chain name o in (u, down i c, h)

  no_conflict :
      (name other : Text) (e : d.Element) (l : List d.Element)
      → Outermost d ip name e l
      → NoMatch d ip other e
      → ⊥
  no_conflict name other e l o none_there =
      let (u, c, yes_test) = Outermost-Chain name o in
      let no_test = none_there l u c in
      false≢true (ok-injective false true (sym no_test ∙ yes_test))

  same_flag-Means :
      (name other : Text) (e : d.Element) (r s : Tags)
      → Means d ip name e r
      → Means d ip other e s
      → r.1 ≡ s.1
  same_flag-Means name other e (vals, true) (vals', true) h k = refl
  same_flag-Means name other e (vals, true) (vals', false) (l, o, _) (_, n) =
      absurd (no_conflict name other e l o n)
  same_flag-Means name other e (vals, false) (vals', true) (_, n) (l, o, _) =
      absurd (no_conflict other name e l o n)
  same_flag-Means name other e (vals, false) (vals', false) h k = refl

  -- If the walks for two tags end without an error, they agree on whether a unit matched.
  pub accumulate_tags-same_flag :
      (limit : ℕ) (name other : Text) (e : d.Element) (r s : Tags)
      → accumulate_tags d ip name limit e ≡ ok r
      → accumulate_tags d ip other limit e ≡ ok s
      → r.1 ≡ s.1
  accumulate_tags-same_flag limit name other e r s h k =
      same_flag-Means name other e r s (accumulate_tags-Means d ip name limit e r h)
        (accumulate_tags-Means d ip other limit e s k)

abbrev pub is_matched : Found → Bool
is_matched unmatched = false
is_matched (matched _) = true

abbrev pub is_some : Option Text → Bool
is_some none = false
is_some (some _) = true

keep_pair_flag : (t : Tags) (f : Found) → keep_pair t ≡ ok f → is_matched f ≡ t.1
unfolding keep_pair innermost
keep_pair_flag ([], true) f h = absurd (cc)
keep_pair_flag (val ∷ vals, true) f h = ap is_matched (sym (ok-injective (matched val) f h))
keep_pair_flag (vals, false) f h = ap is_matched (sym (ok-injective unmatched f h))

or_none_flag : (t : Tags) (o : Option Text) → or_none t ≡ ok o → is_some o ≡ t.1
unfolding or_none innermost
or_none_flag ([], true) o h = absurd (cc)
or_none_flag (val ∷ vals, true) o h = ap is_some (sym (ok-injective (some val) o h))
or_none_flag (vals, false) o h = ap is_some (sym (ok-injective none o h))

-- A host whose parameters are read without an error has a network, a gateway and a users' group
-- from organization.xml all together or not at all, and it has them exactly if it is marked as a
-- host of the organization.
pub read_workstation_consistent :
    (d : Dom) (ip : Option ℕ) (limit : ℕ) (root : d.Element) (w : Workstation)
    → read_workstation d ip limit root ≡ ok w
    → (is_matched w.network ≡ w.organization_host)
      × (is_matched w.gateway ≡ w.organization_host)
      × (is_some w.users_group ≡ w.organization_host)
unfolding read_workstation
read_workstation_consistent d ip limit root w h =
    let (nt, n_run, h1) = >>=-eq-ok (accumulate_tags d ip (codes "network") limit root) _ h in
    let (network, n_kept, h2) = >>=-eq-ok (keep_pair nt) _ h1 in
    let (gt, g_run, h3) = >>=-eq-ok (accumulate_tags d ip (codes "gateway") limit root) _ h2 in
    let (gateway, g_kept, h4) = >>=-eq-ok (keep_pair gt) _ h3 in
    let (ut, u_run, h5) = >>=-eq-ok (accumulate_tags d ip (codes "users_group") limit root) _ h4 in
    let (users, u_kept, h6) = >>=-eq-ok (or_none ut) _ h5 in
    let (at, a_run, h7) = >>=-eq-ok (accumulate_tags d ip (codes "admin_group") limit root) _ h6 in
    subst
      (λ v.
        (is_matched v.network ≡ v.organization_host)
        × (is_matched v.gateway ≡ v.organization_host)
        × (is_some v.users_group ≡ v.organization_host))
      (ok-injective _ w h7)
      (
        keep_pair_flag nt network n_kept,
        keep_pair_flag gt gateway g_kept
            ∙ accumulate_tags-same_flag d ip limit (codes "gateway") (codes "network") root gt nt
                g_run n_run,
        or_none_flag ut users u_kept
            ∙ accumulate_tags-same_flag d ip limit (codes "users_group") (codes "network") root ut
                nt u_run n_run,
      )
