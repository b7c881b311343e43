-- ===== src/Firewall/Routes.antt =====
-- The static routes that 25_firewall.py accepts, and who serves SSH.
use mathlib.Core.Logic.{ite}
use umbrella_linux.Base.{
  ℕ, ◌≡◌, refl, ◌≢◌, inl, inr, Bool, true, false, ◌&&◌, ◌||◌, List, [], ◌∷◌, ◌++◌, Option, none,
  some, Text, arith, text_eq, if◌then◌else◌, ok, map_result, >>=-eq-ok, ok-injective, subst, sym,
  In, here, there, All, after_bind, Bool-cases,
}
use umbrella_linux.Base.Dict.{Dict, lookup, lookup-insert}
use umbrella_linux.Text.{codes}
use umbrella_linux.Interfaces.{drop_last_two}
use umbrella_linux.Net.{Network, ip_address, ip_network, has_address}
use umbrella_linux.Xml.{Dom}
use umbrella_linux.Firewall.{
  stripped_child, check_route, read_route, keep_routes, read_routes, ssh_to_router, ssh_to_ltsp,
}

-- SSH is served by one of the router and the terminal server exactly if it is let in from outside or
-- from the intranet, and never by both.
pub ssh_to_router-ssh_to_ltsp :
    (from_ext from_int forward has_ltsp : Bool)
    → ((ssh_to_router from_ext from_int forward has_ltsp
          || ssh_to_ltsp from_ext from_int forward has_ltsp)
        ≡ (from_ext || from_int))
      × ((ssh_to_router from_ext from_int forward has_ltsp
            && ssh_to_ltsp from_ext from_int forward has_ltsp)
          ≡ false)
unfolding ssh_to_router ssh_to_ltsp
ssh_to_router-ssh_to_ltsp from_ext from_int forward has_ltsp = (ground arith, ground arith)

-- The gateway of each route lies in the network.
abbrev pub IsReachable : Network → Network × ℕ → Type 0
IsReachable netwrk (route_network, route_via) = has_address netwrk route_via ≡ true

-- The routes of an interface are some, over a network of that name.
abbrev pub AreReachable : Dict Text Network → Text → Option (List (Network × ℕ)) → Type 0
AreReachable networks netif none = Unit
AreReachable networks netif (some l) =
    (l ≢ []) × ((netwrk : Network) × In (netif, netwrk) networks × All (IsReachable netwrk) l)

module _ (d : Dom) where
  check_route-IsReachable :
      (netif : Text) (netwrk n : Network) (via : ℕ) (r : Network × ℕ)
      → check_route d netif netwrk n via ≡ ok r
      → IsReachable netwrk r
  unfolding check_route
  check_route-IsReachable netif netwrk n via r h = elim (Bool-cases (has_address netwrk via)) [
    | inl lies ↦ subst (IsReachable netwrk) (accepted lies) lies
    | inr outside ↦ absurd (ground arith)
  ]
    where
      accepted : has_address netwrk via ≡ true → (n, via) ≡ r
      accepted lies = ground arith

  read_route-IsReachable :
      (netif : Text) (netwrk : Network) (e : d.Element) (r : Network × ℕ)
      → read_route d netif netwrk e ≡ ok r
      → IsReachable netwrk r
  unfolding read_route
  read_route-IsReachable netif netwrk e r =
      after_bind (stripped_child d e (codes "network")) _ r (λ network.
        after_bind (ip_network network) _ r (λ n.
          after_bind (stripped_child d e (codes "via")) _ r (λ via.
            after_bind (ip_address via) _ r (λ a. check_route-IsReachable netif netwrk n a r))))

  All-IsReachable :
      (netif : Text) (netwrk : Network) (l : List d.Element) (acc : List (Network × ℕ))
      → map_result (read_route d netif netwrk) l ≡ ok acc
      → All (IsReachable netwrk) acc
  All-IsReachable netif netwrk [] acc h =
      subst (All (IsReachable netwrk)) (ok-injective [] acc h) tt
  All-IsReachable netif netwrk (e ∷ l) acc h =
      let (r, first, h1) = >>=-eq-ok (read_route d netif netwrk e) _ h in
      let (rest, more, h2) = >>=-eq-ok (map_result (read_route d netif netwrk) l) _ h1 in
      subst (All (IsReachable netwrk)) (ok-injective (r ∷ rest) acc h2)
        (read_route-IsReachable netif netwrk e r first, All-IsReachable netif netwrk l rest more)

  keep_routes-AreReachable :
      (all : Dict Text Network) (name netif : Text) (netwrk : Network) (acc : List (Network × ℕ))
      (routes : Dict Text (List (Network × ℕ)))
      → In (netif, netwrk) all
      → All (IsReachable netwrk) acc
      → AreReachable all name (lookup name routes)
      → AreReachable all name (lookup name (keep_routes d netif acc routes))
  keep_routes-AreReachable all name netif netwrk [] routes i h a = a
  keep_routes-AreReachable all name netif netwrk (r ∷ acc) routes i h a =
      rw (lookup-insert name netif (r ∷ acc) routes)
        (elim (text_eq.dec name netif)
          as (λ o.
            AreReachable all name
              (if ite o true false then some (r ∷ acc) else lookup name routes)) [
                | yes same ↦ ((λ e. cc), (netwrk, subst (λ t. In (t, netwrk) all) (sym same) i, h))
                | no other ↦ a
              ])

  routes-AreReachable :
      (root : d.Element) (all networks : Dict Text Network) (name : Text)
      (routes r : Dict Text (List (Network × ℕ)))
      → ((netif : Text) (netwrk : Network) → In (netif, netwrk) networks → In (netif, netwrk) all)
      → read_routes d root networks routes ≡ ok r
      → AreReachable all name (lookup name routes)
      → AreReachable all name (lookup name r)
  unfolding read_routes
  routes-AreReachable root all [] name routes r sub h a =
      subst (λ z. AreReachable all name (lookup name z)) (ok-injective routes r h) a
  routes-AreReachable root all ((netif, netwrk) ∷ networks) name routes r sub h a =
      let l = d.findall root (codes "static_route_" ++ drop_last_two netif) in
      let (acc, run, rest) = >>=-eq-ok (map_result (read_route d netif netwrk) l) _ h in
      routes-AreReachable root all networks name (keep_routes d netif acc routes) r
        (λ t n i. sub t n (there i)) rest
        (keep_routes-AreReachable all name netif netwrk acc routes (sub netif netwrk (here refl))
          (All-IsReachable netif netwrk l acc run) a)

  -- The static routes that are accepted are those of networks of the system, at least one for each
  -- interface that has an entry, and the gateway of each lies in the network of its interface.
  pub read_routes-AreReachable :
      (root : d.Element) (networks : Dict Text Network) (name : Text)
      (r : Dict Text (List (Network × ℕ)))
      → read_routes d root networks [] ≡ ok r
      → AreReachable networks name (lookup name r)
  read_routes-AreReachable root networks name r h =
      routes-AreReachable root networks networks name [] r (λ t n i. i) h (unfold lookup in tt)
