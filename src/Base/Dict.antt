-- ===== src/Base/Dict.antt =====
-- `map[string]V`: an association list with each key at most once. A missing key of a
-- `map[string]int64` reads as zero.
use ftg_chain.Base.{
  ℕ, suc, ◌+◌, ◌<◌, ◌≡◌, refl, ◌≢◌, inl, inr, Bool, Option, none, some, List, [], ◌∷◌, ◌++◌, ap,
  String, arith, str_eq, eq_iff, if◌then◌else◌, Bool-cases,
}
use ftg_chain.Base.Word.{word, add64, add64_lt}

abbrev pub Dict {ℓ} : Type ℓ → Type ℓ
Dict V = List (String × V)

module _ {ℓ} {V : Type ℓ} where
  unfoldable pub lookup : String → Dict V → Option V
  lookup key [] = none
  lookup key (e ∷ rest) = if str_eq e.0 key then some e.1 else lookup key rest

  -- `m[key] = v`
  unfoldable pub insert : String → V → Dict V → Dict V
  insert key v [] = (key, v) ∷ []
  insert key v (e ∷ rest) = if str_eq e.0 key then (e.0, v) ∷ rest else e ∷ insert key v rest

  -- `delete(m, key)`
  unfoldable pub delete : String → Dict V → Dict V
  delete key [] = []
  delete key (e ∷ rest) = if str_eq e.0 key then rest else e ∷ delete key rest

  -- A read after a write.
  pub lookup-insert :
      (key other : String) (v : V) (d : Dict V)
      → lookup other (insert key v d) ≡ (if str_eq key other then some v else lookup other d)
  unfolding lookup insert
  lookup-insert key other v [] = refl
  lookup-insert key other v (e ∷ rest) =
      let behind = lookup-insert key other v rest in
      ground (arith, behind, eq_iff e.0 key, eq_iff e.0 other, eq_iff key other)

  pub lookup-insert_self :
      (key : String) (v : V) (d : Dict V) → lookup key (insert key v d) ≡ some v
  lookup-insert_self key v d = ground (arith, lookup-insert key key v d, eq_iff key key)

  pub lookup-insert_ne :
      (k j : String) (v : V) (m : Dict V) → k ≢ j → lookup j (insert k v m) ≡ lookup j m
  lookup-insert_ne k j v m h = ground (arith, lookup-insert k j v m, eq_iff k j)

-- The number of entries.
unfoldable pub size {ℓ} : {V : Type ℓ} → Dict V → ℕ
size [] = 0
size (e ∷ m) = suc (size m)

-- The values, in the order of the list.
unfoldable pub values {ℓ} : {V : Type ℓ} → Dict V → List V
values [] = []
values ((k, v) ∷ m) = v ∷ values m

-- The value of a new key comes last.
pub values-insert {ℓ} :
    {V : Type ℓ} (k : String) (v : V) (m : Dict V)
    → lookup k m ≡ none
    → values (insert k v m) ≡ values m ++ v ∷ []
unfolding values lookup insert
values-insert k v [] h = refl
values-insert k v ((j, w) ∷ m) h = elim (Bool-cases (str_eq j k)) [
  | inl same ↦ ground arith
  | inr other ↦ rw other (ap (λ vs. w ∷ vs) (values-insert k v m (rw other at h)))
]

-- The entries whose value passes a test, in the order of the list.
unfoldable pub values_where {ℓ} : {V : Type ℓ} → (V → Bool) → Dict V → List V
values_where p [] = []
values_where p ((k, v) ∷ m) = if p v then v ∷ values_where p m else values_where p m

-- The sum of a number that each entry carries, as a word.
unfoldable pub sum_by {ℓ} : {V : Type ℓ} → (V → ℕ) → Dict V → ℕ
sum_by f [] = 0
sum_by f ((k, v) ∷ m) = add64 (f v) (sum_by f m)

-- The number of entries that pass a test.
unfoldable pub count_by {ℓ} : {V : Type ℓ} → (V → Bool) → Dict V → ℕ
count_by p [] = 0
count_by p ((k, v) ∷ m) = (if p v then 1 else 0) + count_by p m

module _ {ℓ} {V : Type ℓ} (f : V → ℕ) where
  pub sum_by_lt : (m : Dict V) → sum_by f m < word
  unfolding sum_by
  sum_by_lt [] = omega arith
  sum_by_lt ((k, v) ∷ m) = add64_lt (f v) (sum_by f m)

  -- A new entry adds its number.
  pub sum_by-insert_new :
      (k : String) (v : V) (m : Dict V)
      → lookup k m ≡ none
      → sum_by f (insert k v m) ≡ add64 (sum_by f m) (f v)
  unfolding sum_by lookup insert add64
  sum_by-insert_new k v [] h = omega arith
  sum_by-insert_new k v ((j, w) ∷ m) h = elim (Bool-cases (str_eq j k)) [
    | inl same ↦ ground arith
    | inr other ↦ rw other (ground (arith, sum_by-insert_new k v m (rw other at h)))
  ]

  -- A changed entry moves the sum by the difference.
  pub sum_by-insert :
      (k : String) (v old : V) (m : Dict V)
      → lookup k m ≡ some old
      → add64 (sum_by f (insert k v m)) (f old) ≡ add64 (sum_by f m) (f v)
  unfolding sum_by lookup insert add64
  sum_by-insert k v old [] h = ground arith
  sum_by-insert k v old ((j, w) ∷ m) h = elim (Bool-cases (str_eq j k)) [
    | inl same ↦ ground arith
    | inr other ↦ rw other (ground (arith, sum_by-insert k v old m (rw other at h)))
  ]

  -- An entry that carries nothing leaves the sum alone.
  pub sum_by-insert_zero :
      (k : String) (v : V) (m : Dict V)
      → lookup k m ≡ none
      → f v ≡ 0
      → sum_by f (insert k v m) ≡ sum_by f m
  unfolding add64
  sum_by-insert_zero k v m h z = omega (arith, sum_by-insert_new k v m h, sum_by_lt m)

  -- So does a change that keeps what the entry carries.
  pub sum_by-insert_keep :
      (k : String) (v old : V) (m : Dict V)
      → lookup k m ≡ some old
      → f v ≡ f old
      → sum_by f (insert k v m) ≡ sum_by f m
  unfolding add64
  sum_by-insert_keep k v old m h e =
      omega (arith, sum_by-insert k v old m h, sum_by_lt m, sum_by_lt (insert k v m))

  -- An entry that carried nothing raises the sum by what it carries now.
  pub sum_by-insert_raise :
      (k : String) (v old : V) (m : Dict V)
      → lookup k m ≡ some old
      → f old ≡ 0
      → sum_by f (insert k v m) ≡ add64 (sum_by f m) (f v)
  unfolding add64
  sum_by-insert_raise k v old m h z =
      omega (arith, sum_by-insert k v old m h, sum_by_lt m, sum_by_lt (insert k v m))

module _ {ℓ} {V : Type ℓ} (p : V → Bool) where
  abbrev pub indicator : V → ℕ
  indicator v = if p v then 1 else 0

  pub count_by-insert_new :
      (k : String) (v : V) (m : Dict V)
      → lookup k m ≡ none
      → count_by p (insert k v m) ≡ count_by p m + indicator v
  unfolding count_by lookup insert
  count_by-insert_new k v [] h = omega arith
  count_by-insert_new k v ((j, w) ∷ m) h = elim (Bool-cases (str_eq j k)) [
    | inl same ↦ ground arith
    | inr other ↦ rw other (omega (arith, count_by-insert_new k v m (rw other at h)))
  ]

  pub count_by-insert :
      (k : String) (v old : V) (m : Dict V)
      → lookup k m ≡ some old
      → count_by p (insert k v m) + indicator old ≡ count_by p m + indicator v
  unfolding count_by lookup insert
  count_by-insert k v old [] h = ground arith
  count_by-insert k v old ((j, w) ∷ m) h = elim (Bool-cases (str_eq j k)) [
    | inl same ↦ ground arith
    | inr other ↦ rw other (omega (arith, count_by-insert k v old m (rw other at h)))
  ]

-- `m[k]` of a `map[string]int64`.
unfoldable pub amount_of : String → Dict ℕ → ℕ
unfolding lookup
amount_of k m = elim (lookup k m) [ none ↦ 0 | some n ↦ n ]

-- A write through the pointer that `m[k]` holds, where there is one.
unfoldable pub modify {ℓ} : {V : Type ℓ} → (V → V) → String → Dict V → Dict V
modify f k m = elim (lookup k m) [ none ↦ m | some v ↦ insert k (f v) m ]
