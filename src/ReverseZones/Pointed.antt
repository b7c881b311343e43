-- ===== src/ReverseZones/Pointed.antt =====
-- The zones of the networks of the system: the lines for the servers.
use umbrella_linux.Base.{
  ℕ, ◌≡◌, refl, sym, subst, true, List, [], ◌∷◌, map, Option, some, Text, ok, type_error, or_raise,
  or_raise-some, In, here, map_result, after_known, ◌>>=◌, there, ok-injective, option_eq, text_eq,
  arith,
}
use mathlib.Core.List.{flatten}
use umbrella_linux.Base.Dict.{Dict, lookup, keys, lookup-nil, lookup-cons}
use umbrella_linux.Base.Places.{In-map, In-flatten, map_result-In}
use umbrella_linux.Text.Order.{sorted, sorted-In}
use umbrella_linux.Net.{Network, has_address}
use umbrella_linux.RevZones.{host_rev_ip}
use umbrella_linux.ReverseZones.{
  Setting, Record, ptr, sorted_functions, host_pointer, pointer, pointers,
}

ordered_functions :
    (f : Option Text) (fs sorted_fs : List (Option Text))
    → (map_result (or_raise type_error) fs >>= λ names. ok (map some (sorted names))) ≡ ok sorted_fs
    → In f fs
    → In f sorted_fs
ordered_functions f fs sorted_fs h i =
    after_known (map_result (or_raise type_error) fs) _ sorted_fs
      (λ names mapped made.
        let (name, at, member) = map_result-In (or_raise type_error) f fs names mapped i in
        subst (In f) (ok-injective (map some (sorted names)) sorted_fs made) (
          subst (λ z. In z (map some (sorted names))) (sym (or_raise-some type_error f name at))
            (In-map some name (sorted names) ((sorted-In name names).1 member))))
      h

-- No function is lost.
pub sorted_functions-In :
    (f : Option Text) (fs sorted_fs : List (Option Text))
    → sorted_functions fs ≡ ok sorted_fs
    → In f fs
    → In f sorted_fs
unfolding sorted_functions
sorted_functions-In f [] sorted_fs h i = elim i [ ]
sorted_functions-In f (g ∷ []) sorted_fs h i = subst (In f) (ok-injective (g ∷ []) sorted_fs h) i
sorted_functions-In f (g ∷ k ∷ fs) sorted_fs h i = ordered_functions f (g ∷ k ∷ fs) sorted_fs h i

pub In-keys :
    {W : Type 0} (k : Option Text) (v : W) (d : Dict (Option Text) W)
    → lookup k d ≡ some v
    → In k (keys d)
In-keys {W} k v [] h = absurd (cc (h, lookup-nil {V = W} k))
In-keys k v ((j, w) ∷ d) h = elim (option_eq.dec k j) [
  | yes e ↦ here e
  | no e ↦ there (In-keys k v d (ground (arith, lookup-cons k j w d)))
]

module _ (s : Setting) (net : Network) (function : Option Text) (a : ℕ) (host : Text) where
  pointer-ptr :
      (records : List Record)
      → lookup function s.funcifs ≡ some a
      → has_address net a ≡ true
      → lookup function s.hosts.funchosts ≡ some host
      → pointer s net function ≡ ok records
      → In (ptr (host_rev_ip a net) host) records
  unfolding pointer host_pointer
  pointer-ptr records at inside named h =
      subst (In (ptr (host_rev_ip a net) host))
        (ok-injective (ptr (host_rev_ip a net) host ∷ []) records (rw (at, inside, named) at h))
        (here refl)

  -- The zone of a network has a PTR line for every server whose main address is in it.
  pub pointers-ptr :
      (records : List Record)
      → lookup function s.funcifs ≡ some a
      → has_address net a ≡ true
      → lookup function s.hosts.funchosts ≡ some host
      → pointers s net ≡ ok records
      → In (ptr (host_rev_ip a net) host) records
  unfolding pointers
  pointers-ptr records at inside named h =
      after_known (sorted_functions (keys s.hosts.funchosts)) _ records
        (λ functions listed h1.
          after_known (map_result (pointer s net) functions) _ records
            (λ parts mapped made.
              let (own, is, member) =
                map_result-In (pointer s net) function functions parts mapped (
                  sorted_functions-In function (keys s.hosts.funchosts) functions listed
                    (In-keys function host s.hosts.funchosts named)) in
              subst (In (ptr (host_rev_ip a net) host)) (ok-injective (flatten parts) records made)
                (In-flatten _ own parts member (pointer-ptr own at inside named is)))
            h1)
        h
