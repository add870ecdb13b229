-- ===== src/Base/Sums.antt =====
-- Sums of a number that the elements of a list carry, as int64 words, and that the entries of a map
-- carry, as numbers.
use ftg_chain.Base.{
  ℕ, ◌+◌, ◌≡◌, ◌<◌, ◌≤◌, inl, inr, some, List, [], ◌∷◌, ◌++◌, String, arith, str_eq, Bool-cases,
}
use ftg_chain.Base.Word.{word, add64}
use ftg_chain.Base.Dict.{Dict, lookup, insert}

module _ {ℓ} {A : Type ℓ} (f : A → ℕ) where
  unfoldable pub total_by : List A → ℕ
  total_by [] = 0
  total_by (x ∷ xs) = add64 (f x) (total_by xs)

  pub total_by_lt : (xs : List A) → total_by xs < word
  unfolding total_by add64
  total_by_lt [] = omega arith
  total_by_lt (x ∷ xs) = omega arith

  -- `append(xs, x)` adds what `x` carries.
  pub total_by-append : (xs : List A) (x : A) → total_by (xs ++ x ∷ []) ≡ add64 (total_by xs) (f x)
  unfolding total_by add64
  total_by-append [] x = omega arith
  total_by-append (y ∷ xs) x = omega (arith, total_by-append xs x)

module _ {ℓ} {V : Type ℓ} (f : V → ℕ) where
  unfoldable pub sum_of : Dict V → ℕ
  sum_of [] = 0
  sum_of ((k, v) ∷ m) = f v + sum_of m

  pub sum_of-insert_le : (k : String) (v : V) (m : Dict V) → sum_of (insert k v m) ≤ sum_of m + f v
  unfolding sum_of insert
  sum_of-insert_le k v [] = omega arith
  sum_of-insert_le k v ((j, w) ∷ m) = elim (Bool-cases (str_eq j k)) [
    | inl same ↦ rw same (omega arith)
    | inr other ↦ rw other (omega (arith, sum_of-insert_le k v m))
  ]

  pub sum_of-insert :
      (k : String) (v old : V) (m : Dict V)
      → lookup k m ≡ some old
      → sum_of (insert k v m) + f old ≡ sum_of m + f v
  unfolding sum_of lookup insert
  sum_of-insert k v old [] h = ground arith
  sum_of-insert k v old ((j, w) ∷ m) h = elim (Bool-cases (str_eq j k)) [
    | inl same ↦ ground arith
    | inr other ↦ rw other (omega (arith, sum_of-insert k v old m (rw other at h)))
  ]
