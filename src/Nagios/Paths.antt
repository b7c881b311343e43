-- ===== src/Nagios/Paths.antt =====
-- Documentation/hacks/nagios_map/update_nagios: the paths of the monitor and of a switch.
use umbrella_linux.Base.{
  ◌≡◌, ◌↔◌, refl, ◌⊎◌, inl, inr, sym, ◌∙◌, ap, subst, true, List, [], ◌∷◌, ◌++◌, Text, text_eq,
  nat_eq, ==_iff, ok, err, index_error, ok-injective, length, drop, All, arith,
}
use umbrella_linux.Text.{codes, split, join, starts_with}
use umbrella_linux.Text.{Lacks, split-append, split_of_Lacks, parts-Lacks, join-split}
use umbrella_linux.Nagios.{below_properties, branch_of}

-- A text begins with another one, and how it goes on.
abbrev pub Begins : Text → Text → Text → Type 0
Begins s p r = s ≡ p ++ r

starts_with→Begins : (s p : Text) → starts_with s p ≡ true → (r : Text) × Begins s p r
unfolding starts_with
starts_with→Begins s [] h = (s, refl)
starts_with→Begins [] (c ∷ p) h = absurd (cc)
starts_with→Begins (x ∷ s) (c ∷ p) h = elim (nat_eq.dec x c) [
  | yes e ↦ let (r, f) = starts_with→Begins s p (ground (arith, ==_iff x c)) in (r, rw (e, f) refl)
  | no n ↦ absurd (ground (arith, ==_iff x c))
]

starts_with-append : (p r : Text) → starts_with (p ++ r) p ≡ true
unfolding starts_with
starts_with-append [] r = refl
starts_with-append (c ∷ p) r = ground (arith, ==_iff c c, starts_with-append p r)

pub starts_with_iff : (s p : Text) → (starts_with s p ≡ true) ↔ ((r : Text) × Begins s p r)
starts_with_iff s p = (
  starts_with→Begins s p,
  λ (r, e). subst (λ z. starts_with z p ≡ true) (sym e) (starts_with-append p r),
)

pub drop-append : (p r : Text) → drop (length p) (p ++ r) ≡ r
drop-append [] r = refl
drop-append (c ∷ p) r = drop-append p r

-- The part of a path below the root element.
pub below_properties-Begins :
    (path rest : Text) → Begins path (codes "/Properties") rest → below_properties path ≡ rest
below_properties-Begins path rest e = ap below_properties e ∙ drop-append (codes "/Properties") rest

-- The second part of a path; what stands before the first slash is the first part.
abbrev pub IsSecond : Text → Text → Type 0
IsSecond part path =
    (first : Text) × (rest : Text) × Lacks b'/' first
    × Lacks b'/' part
    × (path ≡ first ++ (b'/' ∷ rest))
    × ((rest ≡ part) ⊎ ((more : Text) × (rest ≡ part ++ (b'/' ∷ more))))

split-IsSecond :
    (part path : Text)
    → IsSecond part path
    → (first : Text) × (l : List Text) × (split b'/' path ≡ first ∷ part ∷ l)
split-IsSecond part path (first, rest, no_first, no_part, e, inl same) = (
  first,
  [],
  ap (split b'/') e
      ∙ split-append b'/' first rest no_first
      ∙ ap (λ z. first ∷ split b'/' z) same
      ∙ ap (λ z. first ∷ z) (split_of_Lacks b'/' part no_part),
)
split-IsSecond part path (first, rest, no_first, no_part, e, inr (more, later)) = (
  first,
  split b'/' more,
  ap (split b'/') e
      ∙ split-append b'/' first rest no_first
      ∙ ap (λ z. first ∷ split b'/' z) later
      ∙ ap (λ z. first ∷ z) (split-append b'/' part more no_part),
)

pub IsSecond→branch_of :
    (monitor_path switch_path below branch : Text)
    → Begins monitor_path switch_path below
    → IsSecond branch below
    → branch_of monitor_path switch_path ≡ ok branch
unfolding branch_of
IsSecond→branch_of monitor_path switch_path below branch e second =
    let (first, l, parts) = split-IsSecond branch below second in
    let same : drop (length switch_path) monitor_path ≡ below =
      ap (drop (length switch_path)) e ∙ drop-append switch_path below in
    rw (same, branch_of) (rw parts refl)

joined-IsSecond :
    (path p b : Text) (l : List Text)
    → Lacks b'/' p
    → Lacks b'/' b
    → join b'/' (p ∷ b ∷ l) ≡ path
    → IsSecond b path
unfolding join
joined-IsSecond path p b [] no_p no_b is = (p, b, no_p, no_b, sym is, inl refl)
joined-IsSecond path p b (q ∷ l) no_p no_b is =
    (p, b ++ (b'/' ∷ join b'/' (q ∷ l)), no_p, no_b, sym is, inr (join b'/' (q ∷ l), refl))

parts-IsSecond :
    (path branch : Text) (parts : List Text)
    → split b'/' path ≡ parts
    → (elim parts [ [] ↦ err index_error | _ ∷ [] ↦ err index_error | _ ∷ b ∷ _ ↦ ok b ])
      ≡ ok branch
    → IsSecond branch path
parts-IsSecond path branch [] e h = absurd (cc)
parts-IsSecond path branch (p ∷ []) e h = absurd (cc)
parts-IsSecond path branch (p ∷ b ∷ l) e h =
    let (no_p, (no_b, _)) = subst (All (Lacks b'/')) e (parts-Lacks b'/' path) in
    subst (λ z. IsSecond z path) (ok-injective b branch h)
      (joined-IsSecond path p b l no_p no_b (ap (join b'/') (sym e) ∙ join-split b'/' path))

-- What the code takes for the branch is the second part of what follows the switch's path.
pub branch_of→IsSecond :
    (monitor_path switch_path below branch : Text)
    → Begins monitor_path switch_path below
    → branch_of monitor_path switch_path ≡ ok branch
    → IsSecond branch below
unfolding branch_of
branch_of→IsSecond monitor_path switch_path below branch e h =
    let same : drop (length switch_path) monitor_path ≡ below =
      ap (drop (length switch_path)) e ∙ drop-append switch_path below in
    parts-IsSecond below branch (split b'/' below) refl (rw (same, branch_of) at h)
