-- ===== src/Addresses/Texts.antt =====
-- Python/30_networking.py: the texts that umbrella.xml gives for an interface.
use umbrella_linux.Base.{
  ℕ, ◌≡◌, ◌≢◌, ◌↔◌, ◌⊎◌, inl, inr, refl, sym, ◌∙◌, subst, [], ◌∷◌, Option, none, some, Text, ok,
  Option-cases, ap,
}
use mathlib.Core.Option.{some-injective}
use umbrella_linux.Text.{codes, strip}
use umbrella_linux.Xml.{Dom, child_text}
use umbrella_linux.Net.{ip_address}
use umbrella_linux.Addresses.{stripped, interface_text}
use umbrella_linux.Addresses.Read.{Gives}

-- A text that is there and is not only blanks, without the blanks around it.
abbrev pub IsSolid : Option Text → Text → Type 0
IsSolid o x = (s : Text) × (o ≡ some s) × (strip s ≡ x) × (x ≢ [])

module _ (d : Dom) where
  -- An element of the interface's name, in it one of the other name, and in that a text that is not
  -- blank.
  abbrev pub HasText : d.Element → Text → Text → Text → Type 0
  HasText e interface name x =
      (t : d.Element) × (d.find e interface ≡ some t)
      × ((u : d.Element) × (d.find t name ≡ some u) × IsSolid (d.text u) x)

text_cases : (r : Text) → (r ≡ []) ⊎ ((c : ℕ) × (t : Text) × (r ≡ c ∷ t))
text_cases [] = inl refl
text_cases (c ∷ t) = inr (c, t, refl)

stripped-blank : (s : Text) → strip s ≡ [] → stripped (some s) ≡ none
unfolding stripped
stripped-blank s h = rw (h, stripped) refl

stripped-some : (s : Text) (c : ℕ) (t : Text) → strip s ≡ c ∷ t → stripped (some s) ≡ some (c ∷ t)
unfolding stripped
stripped-some s c t h = rw (h, stripped) refl

pub stripped_iff : (o : Option Text) (x : Text) → (stripped o ≡ some x) ↔ IsSolid o x
unfolding stripped
stripped_iff none x = (λ h. absurd (cc), λ (s, e, _, _). absurd (cc))
stripped_iff (some s) x = elim (text_cases (strip s)) [
  | inl blank ↦ (
    λ h. absurd (cc (sym (stripped-blank s blank) ∙ h)),
    λ (u, e, is, ne).
        (let same : strip u ≡ [] = ap strip (sym (some-injective s u e)) ∙ blank in
          absurd (ne (sym is ∙ same))),
  )
  | inr (c, t, given) ↦ (
    λ h.
        (let shown : c ∷ t ≡ x = some-injective (c ∷ t) x (sym (stripped-some s c t given) ∙ h) in
          (s, refl, given ∙ shown, subst (λ z. z ≢ []) shown (λ n. cc))),
    λ (u, e, is, ne).
        (let same : strip s ≡ x = ap strip (some-injective s u e) ∙ is in
          stripped-some s c t given ∙ ap some (sym given ∙ same)),
  )
]

module _ (d : Dom) (e : d.Element) (interface name x : Text) where
  HasText→interface_text : HasText d e interface name x → interface_text d e interface name ≡ some x
  unfolding interface_text child_text
  HasText→interface_text (t, is, (u, at, solid)) =
      rw (is, interface_text) (rw (at, child_text) ((stripped_iff (d.text u) x).1 solid))

  interface_text→HasText : interface_text d e interface name ≡ some x → HasText d e interface name x
  unfolding interface_text child_text
  interface_text→HasText h = elim (Option-cases (d.find e interface)) [
    | inl missing ↦ absurd (cc (rw (missing, interface_text) at h))
    | inr (t, is) ↦ elim (Option-cases (d.find t name)) [
      | inl absent ↦
          (let (_, e, _, _) =
              (stripped_iff none x).0 (rw (absent, child_text) at (rw (is, interface_text) at h)) in
            absurd (cc e))
      | inr (u, at) ↦ (
        t,
        is,
        (
          u,
          at,
          (stripped_iff (d.text u) x).0 (rw (at, child_text) at (rw (is, interface_text) at h)),
        ),
      )
    ]
  ]

  pub interface_text_iff :
      (interface_text d e interface name ≡ some x) ↔ HasText d e interface name x
  interface_text_iff = (interface_text→HasText, HasText→interface_text)

-- The address that the text of an interface stands for.
abbrev pub HasAddress : (d : Dom) → d.Element → Text → ℕ → Type 0
HasAddress d e interface v =
    (x : Text) × HasText d e interface (codes "ip") x × (ip_address x ≡ ok v)

pub Gives-HasAddress :
    (d : Dom) (e : d.Element) (interface : Text) (v : ℕ)
    → Gives (interface_text d e interface (codes "ip")) v ↔ HasAddress d e interface v
Gives-HasAddress d e interface v = (
  λ (x, is, at). (x, (interface_text_iff d e interface (codes "ip") x).0 is, at),
  λ (x, has, at). (x, (interface_text_iff d e interface (codes "ip") x).1 has, at),
)

pub interface_text-none :
    (d : Dom) (e : d.Element) (interface name : Text)
    → interface_text d e interface name ≡ none
    → (x : Text) → ¬ HasText d e interface name x
interface_text-none d e interface name h x has =
    cc (h, (interface_text_iff d e interface name x).1 has)
