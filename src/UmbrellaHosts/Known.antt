-- ===== src/UmbrellaHosts/Known.antt =====
-- Cfg/usr/local/bin/umbrella-hosts/umbrella-hosts: which addresses the script takes for used.
use umbrella_linux.Base.{
  In-added, ℕ, ◌≡◌, refl, ◌↔◌, ◌⊎◌, inl, inr, List, [], ◌∷◌, map, Option, some, Text, ok,
  fold_result, fold_source, fold_reaches, nat_eq, sym, ap, ◌∙◌, subst, In, here, there, after_known,
  ok-injective,
}
use umbrella_linux.Net.{ip_address}
use umbrella_linux.Networks.{address_of}
use umbrella_linux.UmbrellaHosts.{add_text, load_all_ips}

-- What the loop over some texts adds to the addresses.
add_text_source :
    (a : ℕ) (s s' : List ℕ) (o : Option Text)
    → add_text s o ≡ ok s'
    → In a s'
    → In a s ⊎ (address_of o ≡ ok a)
unfolding add_text
add_text_source a s s' o h i =
    after_known (address_of o) _ s'
      (λ x is h1. elim ((In-added a x s).0 (subst (In a) (sym (ok-injective _ s' h1)) i)) [
        | inl j ↦ inl j
        | inr e ↦ inr (is ∙ ap ok (sym e))
      ])
      h

add_text_reaches :
    (a : ℕ) (s s' : List ℕ) (o : Option Text)
    → add_text s o ≡ ok s'
    → In a s ⊎ (address_of o ≡ ok a)
    → In a s'
unfolding add_text
add_text_reaches a s s' o h old =
    after_known (address_of o) _ s'
      (λ x is h1. subst (In a) (ok-injective _ s' h1) (
        (In-added a x s).1
          (elim old [ inl j ↦ inl j | inr e ↦ inr (ok-injective a x (sym e ∙ is)) ])))
      h

-- An address that umbrella.xml or LDAP has.
abbrev pub IsKnown : List (Option Text) → List Text → ℕ → Type 0
IsKnown in_umbrella ldap_lines a =
    ((o : Option Text) × In o in_umbrella × (address_of o ≡ ok a))
    ⊎ ((s : Text) × In s ldap_lines × (ip_address s ≡ ok a))

In-texts :
    (o : Option Text) (ls : List Text)
    → In o (map (λ s. some s) ls)
    → (s : Text) × In s ls × (o ≡ some s)
In-texts o [] i = elim i [ ]
In-texts o (x ∷ ls) (here e) = (x, here refl, e)
In-texts o (x ∷ ls) (there i) = let (s, j, e) = In-texts o ls i in (s, there j, e)

texts-In : (s : Text) (ls : List Text) → In s ls → In (some s) (map (λ t. some t) ls)
texts-In s [] i = elim i [ ]
texts-In s (x ∷ ls) (here e) = here (ap (λ t. some t) e)
texts-In s (x ∷ ls) (there i) = there (texts-In s ls i)

pub load_all_ips_iff :
    (us : List (Option Text)) (ls : List Text) (taken : List ℕ) (a : ℕ)
    → load_all_ips us ls ≡ ok taken
    → In a taken ↔ IsKnown us ls a
unfolding load_all_ips
load_all_ips_iff us ls taken a h =
    after_known (fold_result add_text [] us) _ taken
      (λ first h1 h2. (
        λ i.
            elim (fold_source add_text (In a) (λ o. address_of o ≡ ok a) (add_text_source a)
              (map (λ s. some s) ls) first taken h2 i) [
                | inr (o, j, e) ↦
                    (let (s, k, f) = In-texts o ls j in
                      inr (s, k, subst (λ z. address_of z ≡ ok a) f e))
                | inl j ↦
                    elim (fold_source add_text (In a) (λ o. address_of o ≡ ok a) (add_text_source a)
                      us [] first h1 j) [ inl k ↦ elim k [ ] | inr found ↦ inl found ]
              ],
        λ known.
            fold_reaches add_text (In a) (λ o. address_of o ≡ ok a) (add_text_reaches a)
              (map (λ s. some s) ls) first taken h2
              (elim known [
                | inl found ↦ inl (
                    fold_reaches add_text (In a) (λ o. address_of o ≡ ok a) (add_text_reaches a) us
                      [] first h1 (inr found))
                | inr (s, k, e) ↦ inr (some s, texts-In s ls k, e)
              ]),
      ))
      h
