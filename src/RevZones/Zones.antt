-- ===== src/RevZones/Zones.antt =====
-- Every network of the system has a reverse zone.
use umbrella_linux.Base.{◌≡◌, true, List, [], Text, ok, some, In, All, All-In}
use umbrella_linux.Base.Dict.{Dict, lookup-nil}
use umbrella_linux.Net.{Network, IsNetwork}
use umbrella_linux.Networks.Subnet.{Within}
use umbrella_linux.RevZones.{find_classful, is_served, classful_nets}
use umbrella_linux.RevZones.Wrapping.{IsClassful, IsGood}
use umbrella_linux.RevZones.Served.{Serves, add_wrappers_serve, drop_subsets-ok, find_class_of}

empty-IsGood : IsGood (record { classfulnets = []; cache = [] })
empty-IsGood = record {
  classful = λ c i. elim i [ ];
  known = λ k c e. absurd (cc (e, lookup-nil {V = Network} k));
}

-- From well-formed networks the script computes a set of classful networks, and `findClassful`
-- finds in it, for every network that reverse zones are made for, a classful network that has
-- all its addresses.
pub find_classful-classful_nets :
    (nets : Dict Text Network) (t : Text) (n : Network)
    → All (λ (_, m). IsNetwork m) nets
    → In (t, n) nets
    → is_served t ≡ true
    → (classful : List Network) × (zone : Network) × (classful_nets nets ≡ ok classful)
      × (find_classful n classful ≡ some zone)
      × IsNetwork zone
      × IsClassful zone
      × Within n zone
find_classful-classful_nets nets t n h i served =
    let (w, e, g, _, serve) =
      add_wrappers_serve nets (record { classfulnets = []; cache = [] }) h empty-IsGood in
    let found =
      find_class_of n w.classfulnets (All-In (λ (_, m). IsNetwork m) nets h (t, n) i)
        (All-In (Serves w.classfulnets) nets serve (t, n) i served) in
    (
      w.classfulnets,
      found.zone,
      (unfold classful_nets in rw e (drop_subsets-ok w.classfulnets w.classfulnets w.classfulnets)),
      found.found,
      (g.classful found.zone found.member).0,
      (g.classful found.zone found.member).1,
      found.around,
    )
