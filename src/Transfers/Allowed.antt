-- ===== src/Transfers/Allowed.antt =====
-- Whom the list of transfers serves.
use umbrella_linux.Base.{
  ℕ, ◌≡◌, refl, sym, ◌∙◌, subst, Bool, true, false, ◌⊎◌, ◌↔◌, inl, inr, List, [], ◌∷◌, ◌++◌, Option,
  Text, ok, fold_result, fold_source, fold_reaches, after_known, ok-injective, In, here, In-append,
  In-append_left, In-append_right, In-cons, Bool-cases,
}
use umbrella_linux.BaseParams.{DomainLists}
use umbrella_linux.Net.{Network, ip_address, ip_network, has_address}
use umbrella_linux.Transfers.{note_network, note_address, entries, transfers}

-- A text that stands for a network with the address that the other text stands for.
abbrev pub HasAddress : Text → Text → Type 0
HasAddress addr net =
    (ip : ℕ) × (n : Network) × (ip_address addr ≡ ok ip)
    × (ip_network net ≡ ok n)
    × (has_address n ip ≡ true)

module _ (addr : Text) where
  note_network_source :
      (s s' : Bool) (net : Text)
      → note_network addr s net ≡ ok s'
      → s' ≡ true
      → (s ≡ true) ⊎ HasAddress addr net
  unfolding note_network
  note_network_source true s' net h t = inl refl
  note_network_source false s' net h t =
      after_known (ip_address addr) _ s'
        (λ ip at h1.
          after_known (ip_network net) _ s'
            (λ n is last. inr (ip, n, at, is, ok-injective _ s' last ∙ t)) h1)
        h

  note_network_reach :
      (s s' : Bool) (net : Text)
      → note_network addr s net ≡ ok s'
      → (s ≡ true) ⊎ HasAddress addr net
      → s' ≡ true
  unfolding note_network
  note_network_reach true s' net h old = sym (ok-injective true s' h)
  note_network_reach false s' net h (inl no_way) = cc
  note_network_reach false s' net h (inr (ip, n, at, is, inside)) =
      sym (ok-injective true s' (rw (at, is, inside) at h))

  -- An address is allowed exactly if a network of the list has it.
  allowed_iff :
      (nets : List Text) (b : Bool)
      → fold_result (note_network addr) false nets ≡ ok b
      → ((b ≡ true) → (net : Text) × In net nets × HasAddress addr net)
        × (((net : Text) × In net nets × HasAddress addr net) → b ≡ true)
  allowed_iff nets b h = (
    λ t.
        elim (fold_source (note_network addr) (λ z. z ≡ true) (HasAddress addr) note_network_source
          nets false b h t) [ inl never ↦ cc | inr found ↦ found ],
    λ found.
        fold_reaches (note_network addr) (λ z. z ≡ true) (HasAddress addr) note_network_reach nets
          false b h (inr found),
  )

-- A network of the list has the address.
abbrev pub IsCovered : List Text → Text → Type 0
IsCovered nets addr = (net : Text) × In net nets × HasAddress addr net

module _ (nets : List Text) where
  note_address-cases :
      (s s' : List Text) (addr : Text)
      → note_address nets s addr ≡ ok s'
      → (IsCovered nets addr × (s' ≡ s)) ⊎ ((¬ IsCovered nets addr) × (s' ≡ s ++ (addr ∷ [])))
  unfolding note_address
  note_address-cases s s' addr h =
      after_known (fold_result (note_network addr) false nets) _ s'
        (λ allowed is last.
          let (sound, complete) = allowed_iff addr nets allowed is in
          elim (Bool-cases allowed) [
            | inl yes_it ↦ inl (sound yes_it, sym (ok-injective s s' (rw yes_it at last)))
            | inr no_way ↦ inr (
              (λ covered. cc (complete covered, no_way)),
              sym (ok-injective (s ++ (addr ∷ [])) s' (rw no_way at last)),
            )
          ])
        h

  note_address_source :
      (x : Text) (s s' : List Text) (addr : Text)
      → note_address nets s addr ≡ ok s'
      → In x s'
      → In x s ⊎ ((x ≡ addr) × (¬ IsCovered nets addr))
  note_address_source x s s' addr h i = elim (note_address-cases s s' addr h) [
    | inl (_, same) ↦ inl (subst (In x) same i)
    | inr (other, new) ↦ elim (In-append x s (addr ∷ []) (subst (In x) new i)) [
      | inl old ↦ inl old
      | inr last ↦ elim (In-cons x addr [] last) [ inl e ↦ inr (e, other) | inr j ↦ elim j [ ] ]
    ]
  ]

  note_address_reach :
      (x : Text) (s s' : List Text) (addr : Text)
      → note_address nets s addr ≡ ok s'
      → In x s ⊎ ((x ≡ addr) × (¬ IsCovered nets addr))
      → In x s'
  note_address_reach x s s' addr h old = elim (note_address-cases s s' addr h) [
    | inl (covered, same) ↦ elim old [
      | inl i ↦ subst (In x) (sym same) i
      | inr (_, other) ↦ absurd (other covered)
    ]
    | inr (_, new) ↦ subst (In x) (sym new) (elim old [
      | inl i ↦ In-append_left x s (addr ∷ []) i
      | inr (e, _) ↦ In-append_right x s (addr ∷ []) (here e)
    ])
  ]

-- Where the list of transfers of a domain is made, it has the networks that may transfer the domain and
-- the notified addresses that are in none of these networks, and nothing else.
pub transfers_iff :
    (lists : DomainLists) (name : Option Text) (l : List Text) (x : Text)
    → transfers lists name ≡ ok l
    → In x l ↔ (
        In x (entries name lists.domain_axfr)
        ⊎ (In x (entries name lists.domain_notifies)
            × (¬ IsCovered (entries name lists.domain_axfr) x)))
unfolding transfers
transfers_iff lists name l x h =
    let nets = entries name lists.domain_axfr in
    let addresses = entries name lists.domain_notifies in
    let Last = λ (addr : Text). (x ≡ addr) × (¬ IsCovered nets addr) in
    (
      λ i.
          elim (fold_source (note_address nets) (In x) Last (note_address_source nets x) addresses
            nets l h i) [
              | inl old ↦ inl old
              | inr (addr, j, (e, other)) ↦ inr (
                subst (λ z. In z addresses) (sym e) j,
                subst (λ z. ¬ IsCovered nets z) (sym e) other,
              )
            ],
      λ found.
          fold_reaches (note_address nets) (In x) Last (note_address_reach nets x) addresses nets l
            h (elim found [ inl i ↦ inl i | inr (j, other) ↦ inr (x, j, (refl, other)) ]),
    )
