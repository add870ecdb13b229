-- ===== src/Base/Sorting.antt =====
-- What `sort.Slice` promises: here for elements any two of which compare, so that the result is in
-- strict order.
use ftg_chain.Base.{◌≡◌, ◌⊎◌, inl, inr, Bool, true, false, List, [], ◌∷◌, Bool-cases}
use ftg_chain.Base.Lists.{All, All-mono, insert_by, sort_onto, sort_slice}

-- Every element comes before all that follow it.
abbrev pub Ordered {ℓ} : {A : Type ℓ} → (A → A → Bool) → List A → Type 0
Ordered less [] = Unit
Ordered less (x ∷ xs) = All (λ y. less x y ≡ true) xs × Ordered less xs

-- The two compare.
abbrev pub Compare {ℓ} : {A : Type ℓ} → (A → A → Bool) → A → A → Type 0
Compare less x y = (less x y ≡ true) ⊎ (less y x ≡ true)

-- Any two elements compare.
abbrev pub Comparable {ℓ} : {A : Type ℓ} → (A → A → Bool) → List A → Type 0
Comparable less [] = Unit
Comparable less (x ∷ xs) = All (λ y. Compare less x y) xs × Comparable less xs

module _ {ℓ} {A : Type ℓ} (less : A → A → Bool) where
  pub All-insert_by {κ} :
      (P : A → Type κ) (x : A) (xs : List A) → P x → All P xs → All P (insert_by less x xs)
  unfolding insert_by
  All-insert_by P x [] hx h = (hx, tt)
  All-insert_by P x (y ∷ ys) hx (hy, h) = elim (Bool-cases (less x y)) [
    | inl before ↦ rw before (hx, (hy, h))
    | inr after ↦ rw after (hy, All-insert_by P x ys hx h)
  ]

  module _ (trans : (x y z : A) → less x y ≡ true → less y z ≡ true → less x z ≡ true) where
    insert_by-Ordered :
        (x : A) (xs : List A)
        → All (λ y. Compare less x y) xs
        → Ordered less xs
        → Ordered less (insert_by less x xs)
    unfolding insert_by
    insert_by-Ordered x [] c o = (tt, tt)
    insert_by-Ordered x (y ∷ ys) (c, cs) (o, os) = elim (Bool-cases (less x y)) [
      | inl before ↦ rw before (
        (
          before,
          All-mono (λ z. less y z ≡ true) (λ z. less x z ≡ true) ys (λ z h. trans x y z before h) o,
        ),
        (o, os),
      )
      | inr after ↦ rw after (
        All-insert_by (λ z. less y z ≡ true) x ys (turned after c) o,
        insert_by-Ordered x ys cs os,
      )
    ]
      where
        turned : less x y ≡ false → Compare less x y → less y x ≡ true
        turned after (inl before) = absurd (cc)
        turned after (inr h) = h

    sort_onto-Ordered :
        (xs sorted : List A)
        → Comparable less xs
        → All (λ x. All (λ y. Compare less x y) sorted) xs
        → Ordered less sorted
        → Ordered less (sort_onto less xs sorted)
    unfolding sort_onto
    sort_onto-Ordered [] sorted c cross o = o
    sort_onto-Ordered (x ∷ xs) sorted (c, cs) (h, cross) o =
        sort_onto-Ordered xs (insert_by less x sorted) cs (crossed xs c cross)
          (insert_by-Ordered x sorted h o)
      where
        flip : (a b : A) → Compare less a b → Compare less b a
        flip a b (inl h) = inr h
        flip a b (inr h) = inl h

        crossed :
            (zs : List A)
            → All (λ y. Compare less x y) zs
            → All (λ z. All (λ y. Compare less z y) sorted) zs
            → All (λ z. All (λ y. Compare less z y) (insert_by less x sorted)) zs
        crossed [] c cross = tt
        crossed (z ∷ zs) (c, cs) (h, cross) =
            (All-insert_by (λ y. Compare less z y) x sorted (flip x z c) h, crossed zs cs cross)

    All-nil : (xs : List A) → All (λ x. Unit {0}) xs
    All-nil [] = tt
    All-nil (x ∷ xs) = (tt, All-nil xs)

    pub sort_slice-Ordered : (xs : List A) → Comparable less xs → Ordered less (sort_slice less xs)
    unfolding sort_slice
    sort_slice-Ordered xs c = sort_onto-Ordered xs [] c (All-nil xs) tt
