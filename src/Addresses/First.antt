-- ===== src/Addresses/First.antt =====
-- Python/30_networking.py: the main address of a server.
use umbrella_linux.Base.{
  ℕ, ◌≡◌, refl, ◌⊎◌, inl, inr, List, [], ◌∷◌, Text, text_eq, option_eq, Option, none, some, Bool,
  true, false, ok, key_error, or_raise, if◌then◌else◌, fold_result, In, here, there, >>=-eq-ok,
  ok-injective, subst, sym, ap, ◌∙◌, arith, ==_iff, Distinct, In→contains, contains, text_discrete,
  ℕ_discrete,
}
use umbrella_linux.Base.Dict.{Dict, lookup, insert}
use umbrella_linux.Text.{codes}
use umbrella_linux.Interfaces.{iftypes, pubif}
use umbrella_linux.Xml.{Dom}
use umbrella_linux.Addresses.{
  ServerIfs, first_value, note_address, interface_text, note_server_if, read_server_ifs,
}
use umbrella_linux.Addresses.Read.{
  Gives, Gives-unique, Round, note_address-Round, noted_iff, nothing_given,
}

-- The address of the first of the interfaces that has one.
abbrev pub FirstGives : (Text → Option Text) → List Text → ℕ → Type 0
FirstGives text [] a = ⊥
FirstGives text (t ∷ l) a = Gives (text t) a ⊎ ((text t ≡ none) × FirstGives text l a)

-- The first entry of a dict.
abbrev Starts : {V : Type 0} → Text → V → Dict Text V → Type 0
Starts {V} k v d = (r : Dict Text V) × (d ≡ (k, v) ∷ r)

insert-Starts :
    {V : Type 0} (k i : Text) (v a : V) (d : Dict Text V)
    → (k ≡ i → ⊥)
    → Starts k v d
    → Starts k v (insert i a d)
unfolding insert
insert-Starts k i v a d other (r, e) = (insert i a r, rw e (ground (arith, ==_iff i k)))

or_raise-ok : (o : Option ℕ) (a : ℕ) → or_raise key_error o ≡ ok a → o ≡ some a
or_raise-ok none a h = cc
or_raise-ok (some v) a h = ground arith

no_first : (d : Dict Text ℕ) (a : ℕ) → d ≡ [] → first_value d ≡ ok a → ⊥
unfolding first_value
no_first [] a e h = cc
no_first (_ ∷ _) a e h = cc

first_is : (i : Text) (b a : ℕ) (r d : Dict Text ℕ) → d ≡ (i, b) ∷ r → first_value d ≡ ok a → b ≡ a
unfolding first_value
first_is i b a r [] e h = cc
first_is i b a r ((_, v) ∷ _) e h = ground arith

first_entry : (i : Text) (v : ℕ) → Starts i v (insert i v [])
unfolding insert
first_entry i v = ([], refl)

not-In : (x : Text) (l : List Text) → contains l x ≡ false → In x l → ⊥
not-In x l h i = cc (In→contains l x i)

iftypes-Distinct : Distinct iftypes
unfolding text_eq text_discrete ℕ_discrete
iftypes-Distinct = (
  not-In _ _ refl,
  (
    not-In _ _ refl,
    (
      not-In _ _ refl,
      (not-In _ _ refl, (not-In _ _ refl, (not-In _ _ refl, (not-In _ _ refl, tt)))),
    ),
  ),
)

module _ (d : Dom) (server : d.Element) where
  abbrev ip : Text → Option Text
  ip i = interface_text d server i (codes "ip")

  srvifs_noted :
      (s s' : ServerIfs) (i : Text)
      → note_server_if d server s i ≡ ok s'
      → note_address i (ip i) s.srvifs ≡ ok s'.srvifs
  unfolding note_server_if
  srvifs_noted s s' i h =
      let (ifs, is, rest) = >>=-eq-ok (note_address i (ip i) s.srvifs) _ h in
      is ∙ ap ok (ap (λ z. z.srvifs) (ok-injective _ s' rest))

  srvifs-Round :
      (s s' : ServerIfs) (i : Text)
      → note_server_if d server s i ≡ ok s'
      → Round (Gives (ip i)) i s.srvifs s'.srvifs
  srvifs-Round s s' i h = note_address-Round i (ip i) s.srvifs s'.srvifs (srvifs_noted s s' i h)

  stays_first :
      (k : Text) (v : ℕ) (l : List Text) (s s' : ServerIfs)
      → fold_result (note_server_if d server) s l ≡ ok s'
      → (In k l → ⊥)
      → Starts k v s.srvifs
      → Starts k v s'.srvifs
  stays_first k v [] s s' h fresh first =
      subst (λ z. Starts k v z) (ap (λ z. z.srvifs) (ok-injective s s' h)) first
  stays_first k v (i ∷ l) s s' h fresh first =
      let (t, head, rest) = >>=-eq-ok (note_server_if d server s i) _ h in
      stays_first k v l t s' rest (λ at_k. fresh (there at_k))
        (elim (srvifs-Round s t i head) [
          | inl (same, _) ↦ subst (λ z. Starts k v z) same first
          | inr (a, _, new) ↦
              subst (λ z. Starts k v z) new
                (insert-Starts k i v a s.srvifs (λ e. fresh (here e)) first)
        ])

  first_value-FirstGives :
      (l : List Text) (s s' : ServerIfs) (a : ℕ)
      → Distinct l
      → s.srvifs ≡ []
      → fold_result (note_server_if d server) s l ≡ ok s'
      → first_value s'.srvifs ≡ ok a
      → FirstGives ip l a
  first_value-FirstGives [] s s' a distinct empty h is =
      absurd (no_first s.srvifs a empty (rw (ap (λ z. z.srvifs) (ok-injective s s' h)) is))
  first_value-FirstGives (i ∷ l) s s' a (fresh, distinct) empty h is =
      let (t, head, rest) = >>=-eq-ok (note_server_if d server s i) _ h in
      elim (srvifs-Round s t i head) [
        | inl (same, nothing) ↦ inr (
          nothing_given i (ip i) s.srvifs t.srvifs (srvifs_noted s t i head) nothing,
          first_value-FirstGives l t s' a distinct (sym same ∙ empty) rest is,
        )
        | inr (b, gives, new) ↦
            let (r, e) = stays_first i b l t s' rest fresh (
              subst (λ z. Starts i b z) new
                (subst (λ z. Starts i b (insert i b z)) (sym empty) (first_entry i b))) in
            inl (subst (λ v. Gives (ip i) v) (first_is i b a r s'.srvifs e is) gives)
      ]

  -- The main address of a server: that of its public interface, or of its first one.
  abbrev pub IsServerAddress : Bool → ℕ → Type 0
  IsServerAddress true a = Gives (interface_text d server pubif (codes "ip")) a
  IsServerAddress false a = FirstGives (λ i. interface_text d server i (codes "ip")) iftypes a

  pub main_value-IsServerAddress :
      (public : Bool) (own : ServerIfs) (a : ℕ)
      → read_server_ifs d server ≡ ok own
      → (if public then or_raise key_error (lookup pubif own.srvifs) else first_value own.srvifs)
        ≡ ok a
      → IsServerAddress public a
  unfolding read_server_ifs
  main_value-IsServerAddress true own a h is =
      ((noted_iff (note_server_if d server) (λ s. s.srvifs) (λ i v. Gives (ip i) v) srvifs-Round
          (λ i v w p q. Gives-unique (ip i) v w p q) iftypes _ own refl h pubif a).0
        (or_raise-ok (lookup pubif own.srvifs) a is)).1
  main_value-IsServerAddress false own a h is =
      first_value-FirstGives iftypes _ own a iftypes-Distinct refl h is
