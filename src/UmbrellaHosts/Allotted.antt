-- ===== src/UmbrellaHosts/Allotted.antt =====
-- One search after another, where each address that is found is taken into use.
use umbrella_linux.Base.{
  ℕ, zero, suc, ◌+◌, ◌≤◌, ◌≡◌, refl, sym, ◌∙◌, ap, subst, true, false, List, [], ◌∷◌, arith, nat_eq,
  keep, take, length, contains, In, here, there, In-keep, Distinct, ◌⊎◌, inl, inr, Bool-cases,
  ==_iff,
}
use mathlib.Core.List.{head-eq_of_cons-eq, tail-eq_of_cons-eq}
use umbrella_linux.Net.{Network, IsNetwork, num_addresses, has_address}
use umbrella_linux.Net.Each.{count_up, addresses, In-count_up, In-addresses}
use umbrella_linux.UmbrellaHosts.{get_free_ips}
use umbrella_linux.UmbrellaHosts.Free.{is_free, get_free_ips-take}

-- The addresses that searches for one address give, each of them taken before the next search; the
-- searches end when one finds none.
unfoldable pub allot : ℕ → List ℕ → Network → List ℕ
allot zero taken network = []
allot (suc k) taken network = elim (get_free_ips taken network 1) [
  | [] ↦ []
  | x ∷ _ ↦ x ∷ allot k (x ∷ taken) network
]

count_up-Distinct : (k a : ℕ) → Distinct (count_up k a)
unfolding count_up
count_up-Distinct zero a = tt
count_up-Distinct (suc k) a = (
  (λ i. (let range = (In-count_up a k (a + 1)).0 i in omega (arith, range.0))),
  count_up-Distinct k (a + 1),
)

List-cases : (l : List ℕ) → (l ≡ []) ⊎ ((x : ℕ) × (r : List ℕ) × (l ≡ x ∷ r))
List-cases [] = inl refl
List-cases (x ∷ r) = inr (x, r, refl)

-- What is not in the list makes no difference.
keep_other :
    (x : ℕ) (taken l : List ℕ) → ¬ In x l → keep (is_free (x ∷ taken)) l ≡ keep (is_free taken) l
keep_other x taken [] h = refl
keep_other x taken (y ∷ l) h = elim (nat_eq.dec y x) [
  | yes e ↦ absurd (h (here (sym e)))
  | no n ↦ ground (arith, keep_other x taken l (λ i. h (there i)), ==_iff y x)
]

-- A number that is taken, or is taken next, is left out; the others are as before.
taken_next : (x y : ℕ) (taken : List ℕ) → contains taken y ≡ true → contains (x ∷ taken) y ≡ true
taken_next x y taken h = ground arith

-- Behind the first free address stand those that are free once it is taken.
keep_next :
    (taken l r : List ℕ) (x : ℕ)
    → Distinct l
    → keep (is_free taken) l ≡ x ∷ r
    → keep (is_free (x ∷ taken)) l ≡ r
keep_next taken [] r x u h = absurd (cc)
keep_next taken (y ∷ l) r x (fresh, u) h = elim (Bool-cases (contains taken y)) [
  | inl used ↦ rw (taken_next x y taken used) (keep_next taken l r x u (rw used at h))
  | inr free ↦
      let found : y ∷ keep (is_free taken) l ≡ x ∷ r = rw free at h in
      let first : y ≡ x = head-eq_of_cons-eq found in
      let rest : keep (is_free taken) l ≡ r = tail-eq_of_cons-eq found in
      let used : contains (x ∷ taken) y ≡ true = ground (arith, ==_iff y x, first) in
      rw used (keep_other x taken l (λ i. fresh (subst (λ z. In z l) (sym first) i)) ∙ rest)
]

take_all : (k : ℕ) (l : List ℕ) → length l ≤ k → take k l ≡ l
take_all zero [] h = refl
take_all zero (x ∷ l) h = absurd (omega arith)
take_all (suc k) [] h = refl
take_all (suc k) (x ∷ l) h = ap (λ z. x ∷ z) (take_all k l (omega arith))

-- The searches give the free addresses in ascending order, each once.
allot-take :
    (k : ℕ) (taken : List ℕ) (network : Network)
    → allot k taken network ≡ take k (keep (is_free taken) (addresses network))
unfolding allot
allot-take zero taken network = refl
allot-take (suc k) taken network =
    let first = get_free_ips-take taken network 1 (omega arith) in
    elim (List-cases (keep (is_free taken) (addresses network))) [
      | inl none_left ↦
          let nothing : get_free_ips taken network 1 ≡ [] = first ∙ ap (take 1) none_left in
          rw (allot, nothing, none_left) refl
      | inr (x, r, found) ↦
          let one : get_free_ips taken network 1 ≡ x ∷ [] = first ∙ ap (take 1) found in
          let next : keep (is_free (x ∷ taken)) (addresses network) ≡ r =
            keep_next taken (addresses network) r x
              (unfold addresses in count_up-Distinct (num_addresses network) network.address)
              found in
          rw (allot, one, found)
            (ap (λ l. x ∷ l) (allot-take k (x ∷ taken) network ∙ ap (take k) next))
    ]

-- If each address that the search finds is taken into use before the next search, then every address of
-- the network that was free is found, once as many searches have been made as there were free
-- addresses, and the searches that are made after that find none.
pub allot-In :
    (network : Network) (taken : List ℕ) (k x : ℕ)
    → IsNetwork network
    → length (keep (is_free taken) (addresses network)) ≤ k
    → has_address network x ≡ true
    → contains taken x ≡ false
    → In x (allot k taken network)
      × (length (allot k taken network) ≡ length (keep (is_free taken) (addresses network)))
allot-In network taken k x valid enough inside free =
    let all =
      allot-take k taken network ∙ take_all k (keep (is_free taken) (addresses network)) enough in
    (
      subst (In x) (sym all) (
          In-keep (is_free taken) x (addresses network) ((In-addresses network x valid).1 inside)
            (rw free refl)),
      ap length all,
    )
