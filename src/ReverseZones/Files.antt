-- ===== src/ReverseZones/Files.antt =====
-- The files that the bundle lists for the reverse zones, and the networks that the template takes them
-- for.
use umbrella_linux.Base.{
  ℕ, ◌≡◌, ◌≢◌, refl, Bool, true, false, List, [], ◌∷◌, ◌++◌, some, Text, ok, In, get_elem?, arith,
  text_eq, nat_eq, All, All-append, contains, All-In, ℕ_discrete,
}
use umbrella_linux.Base.Dict.{Dict, NodupKeys}
use umbrella_linux.Base.Places.{In-lookup}
use umbrella_linux.Text.{
  codes, decimal, value, starts_with, Lacks, split, split_of_Lacks, value-decimal,
  decimal-all_digits, decimal-ne-nil, all_digits-Lacks,
}
use umbrella_linux.Text.Suffix.{
  trailing_digits, after_last, ends_with-append, drop_suffix-append, trailing_digits-append,
}
use umbrella_linux.Interfaces.{iftypes, drop_last_two}
use umbrella_linux.Net.{Network}
use umbrella_linux.ReverseZones.{
  Setting, linking_of, file_tail, zone_params, is_link, number_at_end, link_net, served_net,
  zone_net, link_file, served_file,
}

-- A text lacks a character that `in` does not find.
contains-Lacks : (c : ℕ) (s : Text) → contains s c ≡ false → Lacks c s
contains-Lacks c [] h = tt
contains-Lacks c (x ∷ s) h = (λ e. ground arith, contains-Lacks c s (ground arith))

-- Behind the directories of a path stands the file's name.
after_last-path : (s : Text) → Lacks b'/' s → after_last b'/' (codes "/etc/bind/zones/" ++ s) ≡ s
unfolding after_last split nat_eq ℕ_discrete
after_last-path s h = rw (split_of_Lacks b'/' s h) refl

file_tail-Lacks : Lacks b'/' file_tail
unfolding nat_eq ℕ_discrete
file_tail-Lacks = contains-Lacks b'/' file_tail refl

zone_params-path :
    (params : Text)
    → Lacks b'/' params
    → zone_params (codes "/etc/bind/zones/" ++ params ++ file_tail) ≡ ok params
unfolding zone_params
zone_params-path params h =
    rw
      (
        after_last-path (params ++ file_tail)
            (All-append (λ x. x ≢ b'/') params file_tail h file_tail-Lacks),
        ends_with-append params file_tail,
        drop_suffix-append params file_tail,
      )
      refl

link_params : ℕ → Text
link_params i = codes "link_" ++ decimal i

link_params-Lacks : (i : ℕ) → Lacks b'/' (link_params i)
unfolding link_params nat_eq ℕ_discrete
link_params-Lacks i =
    All-append (λ x. x ≢ b'/') (codes "link_") (decimal i)
      (contains-Lacks b'/' (codes "link_") refl)
      (all_digits-Lacks (decimal i) b'/' (decimal-all_digits i) refl)

link_params-is_link : (i : ℕ) → is_link (link_params i) ≡ true
unfolding link_params starts_with nat_eq ℕ_discrete
link_params-is_link i = refl

number_at_end_of_digits : (s : Text) → s ≢ [] → number_at_end s ≡ ok (value 0 s)
unfolding number_at_end
number_at_end_of_digits [] h = absurd (h refl)
number_at_end_of_digits (c ∷ s) h = refl

trailing_digits-link_params : (i : ℕ) → trailing_digits (link_params i) ≡ decimal i
unfolding link_params
trailing_digits-link_params i =
    trailing_digits-append (codes "link") (decimal i) b'_' (decimal-all_digits i) refl

link_net-link_params :
    (linking : List Network) (i : ℕ) (n : Network)
    → get_elem? linking i ≡ some n
    → link_net linking (link_params i) ≡ ok n
unfolding link_net
link_net-link_params linking i n h =
    rw
      (
        trailing_digits-link_params i,
        number_at_end_of_digits (decimal i) (decimal-ne-nil i),
        value-decimal i,
        h,
      )
      refl

-- The name of an interface type, cut and completed again.
record IsShortened (t : Text) : Type 0 where
  lacks : contains (drop_last_two t) b'/' ≡ false
  served : is_link (drop_last_two t) ≡ false
  back : drop_last_two t ++ codes "if" ≡ t

iftypes-IsShortened : All IsShortened iftypes
unfolding drop_last_two starts_with nat_eq ℕ_discrete
iftypes-IsShortened = (
  record { lacks = refl; served = refl; back = refl },
  (
    record { lacks = refl; served = refl; back = refl },
    (
      record { lacks = refl; served = refl; back = refl },
      (
        record { lacks = refl; served = refl; back = refl },
        (
          record { lacks = refl; served = refl; back = refl },
          (
            record { lacks = refl; served = refl; back = refl },
            (record { lacks = refl; served = refl; back = refl }, tt),
          ),
        ),
      ),
    ),
  ),
)

-- The template takes a file name for a file of this kind and of this network.
unfoldable pub StandsFor : Setting → Text → Bool → Network → Type 0
StandsFor s name link n =
    (params : Text) × (zone_params name ≡ ok params)
    × (is_link params ≡ link)
    × (zone_net s params ≡ ok n)

-- The networks of the dict have the names of interface types, each once.
abbrev pub HaveTypes : Dict Text Network → Type 0
HaveTypes nets = All (λ (t, _). In t iftypes) nets × NodupKeys nets

pub link_file-StandsFor :
    (s : Setting) (i : ℕ) (n : Network)
    → get_elem? (linking_of s) i ≡ some n
    → StandsFor s (link_file i) true n
unfolding StandsFor zone_net
link_file-StandsFor s i n h = (
  link_params i,
  (unfold link_params in zone_params-path (link_params i) (link_params-Lacks i)),
  link_params-is_link i,
  rw (link_params-is_link i) (link_net-link_params (linking_of s) i n h),
)

pub served_file-StandsFor :
    (s : Setting) (t : Text) (n : Network)
    → HaveTypes s.networks
    → In (t, n) s.networks
    → StandsFor s (served_file t) false n
unfolding StandsFor zone_net served_net
served_file-StandsFor s t n (types, u) h =
    let short =
      All-In IsShortened iftypes iftypes-IsShortened t
        (All-In (λ (k, _). In k iftypes) s.networks types (t, n) h) in
    (
      drop_last_two t,
      zone_params-path (drop_last_two t) (contains-Lacks b'/' (drop_last_two t) short.lacks),
      short.served,
      rw (short.served, short.back, In-lookup t n s.networks u h) refl,
    )
