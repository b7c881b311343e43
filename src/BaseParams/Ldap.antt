-- ===== src/BaseParams/Ldap.antt =====
-- The LDAP root that 00_baseparams.py makes of the domain name.
use umbrella_linux.Base.{◌≡◌, refl, List, [], ◌∷◌, ◌++◌, Text, map, All, ◌≢◌, arith}
use umbrella_linux.Text.{codes, split, Lacks, split-join, split-ne-nil, split-Lacks}
use umbrella_linux.BaseParams.{ldap_root}

abbrev pub component : Text → Text
component dc = codes "dc=" ++ dc

map-ne-nil : (f : Text → Text) (l : List Text) → l ≢ [] → map f l ≢ []
map-ne-nil f [] h e = h refl
map-ne-nil f (x ∷ l) h e = cc

component-Lacks : (l : List Text) → All (Lacks b',') l → All (Lacks b',') (map component l)
component-Lacks [] h = tt
component-Lacks (s ∷ l) (h, hs) =
    ((ground arith, (ground arith, (ground arith, h))), component-Lacks l hs)

-- The LDAP root of a domain name without commas consists of one dc= component for each part of the
-- domain name, in order.
pub ldap_root-component :
    (domain_name : Text)
    → Lacks b',' domain_name
    → split b',' (ldap_root domain_name) ≡ map component (split b'.' domain_name)
unfolding ldap_root
ldap_root-component s h =
    split-join b',' (map component (split b'.' s))
      (map-ne-nil component (split b'.' s) (split-ne-nil b'.' s))
      (component-Lacks (split b'.' s) (split-Lacks b'.' b',' s h))
