-- ===== src/Routers/Entries.antt =====
-- That the host and the router have one entry at most.
use mathlib.Core.List.{append-nil}
use umbrella_linux.Base.{
  ◌≡◌, Bool, true, false, List, [], ◌∷◌, ◌++◌, Option, none, some, Text, if◌then◌else◌, ok,
  fold_result, >>=-eq-ok, ok-injective, keep, subst, sym, ap, ◌∙◌,
}
use umbrella_linux.Text.{codes}
use umbrella_linux.Xml.{Dom, find_text}
use umbrella_linux.Routers.{
  only, ServerEntries, has_text, note_entry, find_entries, several_entries, several_routers,
}

abbrev pub elements : {A : Type 0} → Option A → List A
elements none = []
elements (some a) = a ∷ []

module _ (d : Dom) where
  only_one :
      (message : Text) (b : Bool) (old new : Option d.Element) (e : d.Element) (l : List d.Element)
      → only d message b old e ≡ ok new
      → elements old ++ (if b then e ∷ l else l) ≡ elements new ++ l
  unfolding only
  only_one message false old new e l h = ap (λ z. elements z ++ l) (ok-injective old new h)
  only_one message true none new e l h = ap (λ z. elements z ++ l) (ok-injective (some e) new h)
  only_one message true (some x) new e l h = absurd (cc)

  -- The servers of the list behind those found, for a test of them.
  abbrev Accounted :
      (d.Element → Bool) → Option d.Element → List d.Element → Option d.Element → Type 0
  Accounted p old l new = elements old ++ keep p l ≡ elements new

  note_entry-Accounted :
      (hostname : Text) (s s' : ServerEntries d) (e : d.Element) (l : List d.Element)
      (last : ServerEntries d)
      → note_entry d hostname s e ≡ ok s'
      → Accounted (has_text d (codes "name") hostname) s'.entry l last.entry
        × Accounted (has_text d (codes "function") (codes "router")) s'.router l last.router
      → Accounted (has_text d (codes "name") hostname) s.entry (e ∷ l) last.entry
        × Accounted (has_text d (codes "function") (codes "router")) s.router (e ∷ l) last.router
  unfolding note_entry
  note_entry-Accounted hostname s s' e l last h (named, routed) =
      let is_host = has_text d (codes "name") hostname in
      let is_router = has_text d (codes "function") (codes "router") in
      let (name, e1, h1) = >>=-eq-ok (find_text d e (codes "name")) _ h in
      let (function, e2, h2) = >>=-eq-ok (find_text d e (codes "function")) _ h1 in
      let (entry, e3, h3) =
        >>=-eq-ok (only d (several_entries hostname) (is_host e) s.entry e) _ h2 in
      let (router, e4, h4) = >>=-eq-ok (only d several_routers (is_router e) s.router e) _ h3 in
      let same = ok-injective _ s' h4 in
      (
        only_one (several_entries hostname) (is_host e) s.entry entry e (keep is_host l) e3
            ∙ subst (λ z. elements z.entry ++ keep is_host l ≡ elements last.entry) (sym same)
                named,
        only_one several_routers (is_router e) s.router router e (keep is_router l) e4
            ∙ subst (λ z. elements z.router ++ keep is_router l ≡ elements last.router) (sym same)
                routed,
      )

  all-Accounted :
      (hostname : Text) (l : List d.Element) (s last : ServerEntries d)
      → fold_result (note_entry d hostname) s l ≡ ok last
      → Accounted (has_text d (codes "name") hostname) s.entry l last.entry
        × Accounted (has_text d (codes "function") (codes "router")) s.router l last.router
  all-Accounted hostname [] s last h =
      let same = ok-injective s last h in
      (
        append-nil (elements s.entry) ∙ ap (λ z. elements z.entry) same,
        append-nil (elements s.router) ∙ ap (λ z. elements z.router) same,
      )
  all-Accounted hostname (e ∷ l) s last h =
      let (s', first, rest) = >>=-eq-ok (note_entry d hostname s e) _ h in
      note_entry-Accounted hostname s s' e l last first (all-Accounted hostname l s' last rest)

  -- If the entries are found, the entry of the host is the only server of that name, or there is
  -- none, and the router's is the only server with that function, or there is none.
  pub find_entries-keep :
      (hostname : Text) (root : d.Element) (s : ServerEntries d)
      → find_entries d hostname root ≡ ok s
      → (keep (has_text d (codes "name") hostname) (d.findall root (codes "server"))
          ≡ elements s.entry)
        × (keep (has_text d (codes "function") (codes "router")) (d.findall root (codes "server"))
            ≡ elements s.router)
  unfolding find_entries
  find_entries-keep hostname root s h =
      all-Accounted hostname (d.findall root (codes "server"))
        (record { entry = none; router = none }) s h
