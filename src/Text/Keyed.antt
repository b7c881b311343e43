-- ===== src/Text/Keyed.antt =====
-- `sorted` with a text as the key.
use umbrella_linux.Base.{
  true, false, List, [], ◌∷◌, Text, if◌then◌else◌, In, here, there, inl, inr, In-cons,
}
use umbrella_linux.Text.Order.{text_leb}

module _ {ℓ} {A : Type ℓ} (key : A → Text) where
  insert_by : A → List A → List A
  insert_by x [] = x ∷ []
  insert_by x (y ∷ ys) = if text_leb (key x) (key y) then x ∷ y ∷ ys else y ∷ insert_by x ys

  -- `sorted(l, key=...)`, which keeps the order of equal keys.
  unfoldable pub sorted_by : List A → List A
  unfolding insert_by
  sorted_by [] = []
  sorted_by (x ∷ xs) = insert_by x (sorted_by xs)

  In-insert_by : (z x : A) (l : List A) → In z (x ∷ l) → In z (insert_by x l)
  unfolding insert_by
  In-insert_by z x [] h = h
  In-insert_by z x (y ∷ l) h =
      elim (text_leb (key x) (key y)) as (λ b. In z (if b then x ∷ y ∷ l else y ∷ insert_by x l)) [
        | true ↦ h
        | false ↦ elim (In-cons z x (y ∷ l) h) [
          | inl e ↦ there (In-insert_by z x l (here e))
          | inr i ↦ elim (In-cons z y l i) [
            | inl e ↦ here e
            | inr j ↦ there (In-insert_by z x l (there j))
          ]
        ]
      ]

  pub In-sorted_by : (z : A) (l : List A) → In z l → In z (sorted_by l)
  unfolding sorted_by
  In-sorted_by z [] h = h
  In-sorted_by z (x ∷ l) (here e) = In-insert_by z x (sorted_by l) (here e)
  In-sorted_by z (x ∷ l) (there i) = In-insert_by z x (sorted_by l) (there (In-sorted_by z l i))

  insert_by-In : (z x : A) (l : List A) → In z (insert_by x l) → In z (x ∷ l)
  unfolding insert_by
  insert_by-In z x [] h = h
  insert_by-In z x (y ∷ l) h =
      elim (text_leb (key x) (key y))
          as (λ b. In z (if b then x ∷ y ∷ l else y ∷ insert_by x l) → In z (x ∷ y ∷ l)) [
            | true ↦ λ i. i
            | false ↦ λ i. elim (In-cons z y (insert_by x l) i) [
              | inl e ↦ there (here e)
              | inr j ↦ elim (In-cons z x l (insert_by-In z x l j)) [
                | inl e ↦ here e
                | inr k ↦ there (there k)
              ]
            ]
          ]
        h

  pub sorted_by-In : (z : A) (l : List A) → In z (sorted_by l) → In z l
  unfolding sorted_by
  sorted_by-In z [] h = h
  sorted_by-In z (x ∷ l) h = elim (In-cons z x (sorted_by l) (insert_by-In z x (sorted_by l) h)) [
    | inl e ↦ here e
    | inr i ↦ there (sorted_by-In z l i)
  ]
