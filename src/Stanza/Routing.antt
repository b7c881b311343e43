-- ===== src/Stanza/Routing.antt =====
-- Python/30_networking.py: what the text of an interface contains.
use umbrella_linux.Base.{
  ℕ, ◌≡◌, List, [], ◌∷◌, ◌++◌, none, some, Text, text_eq, ok, In, here, there, refl, or_raise,
  key_error, ◌⊎◌, type_error, after_known, after_bind, ok-injective, sym, ap, ◌∙◌, subst,
  Option-cases, inl, inr,
}
use mathlib.Core.List.{append-nil, append_assoc}
use umbrella_linux.Base.Dict.{lookup}
use umbrella_linux.Text.{codes}
use umbrella_linux.Net.{Network}
use umbrella_linux.Xml.{Dom, find_str}
use umbrella_linux.Addresses.{stripped}
use umbrella_linux.Addresses.Texts.{IsSolid, stripped_iff}
use umbrella_linux.Stanza.{Setting, line, route_lines, all_route_lines, static_route_lines}
use umbrella_linux.Stanza.Lines.{optional_str, static_lines, iface_lines, interface_stanza}

-- A text with another one in it.
abbrev pub Contains : Text → Text → Type 0
Contains r t = (before : Text) × (after : Text) × (r ≡ before ++ (t ++ after))

Contains-refl : (t : Text) → Contains t t
Contains-refl t = ([], [], sym (append-nil t))

Contains-append_left : (r t k : Text) → Contains r t → Contains (r ++ k) t
Contains-append_left r t k (b, a, e) = (
  b,
  a ++ k,
  ap (λ z. z ++ k) e ∙ append_assoc b (t ++ a) k ∙ ap (λ z. b ++ z) (append_assoc t a k),
)

Contains-append_right : (r t k : Text) → Contains r t → Contains (k ++ r) t
Contains-append_right r t k (b, a, e) =
    (k ++ b, a, ap (λ z. k ++ z) e ∙ sym (append_assoc k b (t ++ a)))

Contains-inner :
    (a inner b c e f t : Text) → Contains inner t → Contains (a ++ inner ++ b ++ c ++ e ++ f) t
Contains-inner a inner b c e f t h = Contains-append_left (a ++ inner ++ b ++ c ++ e) t f (
    Contains-append_left (a ++ inner ++ b ++ c) t e (
      Contains-append_left (a ++ inner ++ b) t c
        (Contains-append_left (a ++ inner) t b (Contains-append_right inner t a h))))

-- How the line of an interface ends: manual without an ip element, dhcp with one that has no text or a
-- blank one.
abbrev pub IsMethod : (d : Dom) → d.Element → Text → Type 0
IsMethod d interface end =
    ((d.find interface (codes "ip") ≡ none) × (end ≡ codes " inet manual"))
    ⊎ ((ip : d.Element) × (d.find interface (codes "ip") ≡ some ip)
        × ((x : Text) → ¬ IsSolid (d.text ip) x)
        × (end ≡ codes " inet dhcp"))

all_route_lines-Contains :
    (net : Network) (via : ℕ) (routes : List (Network × ℕ))
    → In (net, via) routes
    → Contains (all_route_lines routes) (route_lines net via)
unfolding all_route_lines
all_route_lines-Contains net via [] i = elim i [ ]
all_route_lines-Contains net via ((n, v) ∷ routes) (here e) =
    Contains-append_left _ _ (all_route_lines routes) (
      subst (λ (m, w). Contains (route_lines m w) (route_lines net via)) e
        (Contains-refl (route_lines net via)))
all_route_lines-Contains net via ((n, v) ∷ routes) (there i) =
    Contains-append_right _ _ (route_lines n v) (all_route_lines-Contains net via routes i)

module _ (d : Dom) (s : Setting) (interface : d.Element) where
  -- The lines for a static address are never made.
  static_lines-raises : (dev ip t : Text) → static_lines d s interface dev ip ≡ ok t → ⊥
  unfolding static_lines
  static_lines-raises dev ip t h =
      after_bind (or_raise key_error (lookup (d.tag interface) s.networks)) _ t
        (λ net last. cc last) h

  iface_lines-IsMethod :
      (dev t : Text)
      → iface_lines d s interface dev ≡ ok t
      → (end : Text) × IsMethod d interface end × (line (codes "iface " ++ dev ++ end) ≡ t)
  unfolding iface_lines
  iface_lines-IsMethod dev t h = elim (Option-cases (d.find interface (codes "ip"))) [
    | inl missing ↦ (
      codes " inet manual",
      inl (missing, refl),
      ok-injective _ t (rw (missing, iface_lines) at h),
    )
    | inr (ip, given) ↦ elim (Option-cases (stripped (d.text ip))) [
      | inl blank ↦ (
        codes " inet dhcp",
        inr (ip, given, (λ x solid. cc (blank, (stripped_iff (d.text ip) x).1 solid)), refl),
        ok-injective _ t (rw blank at (rw (given, iface_lines) at h)),
      )
      | inr (address, solid) ↦
          after_known (static_lines d s interface dev address) _ t
            (λ rest made _. absurd (static_lines-raises dev address rest made))
            (rw solid at (rw (given, iface_lines) at h))
    ]
  ]

  static-Contains :
      (routes : List (Network × ℕ)) (net : Network) (via : ℕ)
      → lookup (d.tag interface) s.static_routes ≡ some routes
      → In (net, via) routes
      → Contains (static_route_lines s (d.tag interface)) (route_lines net via)
  unfolding static_route_lines
  static-Contains routes net via at_tag i =
      rw (at_tag, static_route_lines) (all_route_lines-Contains net via routes i)

  -- The text of an interface, where it is made, has the line with its device and the method, which is
  -- manual for an interface with no ip element and dhcp for one whose ip is blank; it is not made for
  -- an interface whose ip is not blank; and it has the two lines of every static route that is given
  -- for the interface's type.
  pub interface_stanza-Contains :
      (r : Text)
      → interface_stanza d s interface ≡ ok r
      → (dev : Text) × (find_str d type_error interface (codes "dev") ≡ ok dev)
        × ((end : Text) × IsMethod d interface end
            × Contains r (line (codes "iface " ++ dev ++ end)))
        × ((routes : List (Network × ℕ)) (net : Network) (via : ℕ)
            → lookup (d.tag interface) s.static_routes ≡ some routes
            → In (net, via) routes
            → Contains r (route_lines net via))
  unfolding interface_stanza static_route_lines
  interface_stanza-Contains r h =
      after_bind (optional_str d s interface (codes "bridged")) _ r
        (λ bridgeddev.
          after_known (find_str d type_error interface (codes "dev")) _ r (λ dev has_dev.
            after_known (iface_lines d s interface dev) _ r (λ iface made.
              after_bind (optional_str d s interface (codes "vlandev")) _ r (λ vlandev last.
                let (end, is, same) = iface_lines-IsMethod dev iface made in
                (
                  dev,
                  has_dev,
                  (
                    end,
                    is,
                    subst (λ z. Contains z (line (codes "iface " ++ dev ++ end)))
                        (ok-injective _ r last)
                        (Contains-inner _ iface _ _ _ _ (line (codes "iface " ++ dev ++ end)) (
                          subst (λ z. Contains z (line (codes "iface " ++ dev ++ end))) same
                            (Contains-refl (line (codes "iface " ++ dev ++ end))))),
                  ),
                  λ routes net via at_tag i.
                      subst (λ z. Contains z (route_lines net via)) (ok-injective _ r last)
                        (Contains-append_right (static_route_lines s (d.tag interface))
                          (route_lines net via) _ (static-Contains routes net via at_tag i)),
                )))))
        h
