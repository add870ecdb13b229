-- ===== src/Treasury/Backed.antt =====
-- What keeps the commitments of x/treasury backed, and lemmas on the tests of a status.
use ftg_chain.Base.{
  ℕ, ◌≤◌, ◌≡◌, refl, sym, subst, ◌∙◌, ◌≢◌, inl, inr, true, false, Option, none, some, some_eq,
  Bool-cases, String, arith, str_eq, eq_iff, if◌then◌else◌,
}
use ftg_chain.Base.Dict.{Dict, lookup, insert, lookup-insert}
use ftg_chain.Base.Sums.{sum_of}
use ftg_chain.Sdk.Bank.{Bank, IsBank}
use ftg_chain.Treasury.Types.{
  CommitmentStatus, unset, pending, funded, delivered, cancelled, Commitment, TreasuryConfig,
  Treasury, is_funded, is_cancellable,
}

-- What holds of the state after both branches of a test for nil holds after the test.
pub option_either :
    {A R : Type 0} (P : R → Type 0) (o : Option A) {x : R} {f : A → R}
    → P x
    → ((a : A) → o ≡ some a → P (f a))
    → P (elim o [ none ↦ x | some a ↦ f a ])
option_either P none px pf = px
option_either P (some a) px pf = pf a refl

pub is_funded-is_cancellable : (s : CommitmentStatus) → is_funded s ≡ true → is_cancellable s ≡ true
is_funded-is_cancellable funded h = refl
is_funded-is_cancellable unset h = cc
is_funded-is_cancellable pending h = cc
is_funded-is_cancellable delivered h = cc
is_funded-is_cancellable cancelled h = cc

pub true-ne-false : true ≢ false
true-ne-false e = cc

pub not_cancellable-not_funded :
    (s : CommitmentStatus) → is_cancellable s ≡ false → is_funded s ≡ false
not_cancellable-not_funded funded h = absurd (true-ne-false h)
not_cancellable-not_funded unset h = refl
not_cancellable-not_funded pending h = refl
not_cancellable-not_funded delivered h = refl
not_cancellable-not_funded cancelled h = refl

module _ {V : Type 0} where
  abbrev pub Entries : (String → V → Type 0) → Dict V → Type 0
  Entries P d = (id : String) (c : V) → lookup id d ≡ some c → P id c

  pub Entries-insert :
      (P : String → V → Type 0) (d : Dict V) (key : String) (c : V)
      → Entries P d
      → P key c
      → Entries P (insert key c d)
  Entries-insert P d key c all new id q h = elim (Bool-cases (str_eq key id)) [
    | inl same ↦
        let stored : some c ≡ some q = rw same at (sym (lookup-insert key id c d) ∙ h) in
        let here : key ≡ id = ground (arith, eq_iff key id) in
        subst (λ k. P k q) here (subst (P key) (some_eq stored) new)
    | inr other ↦ all id q (rw other at (sym (lookup-insert key id c d) ∙ h))
  ]

abbrev pub natural : Option ℕ → ℕ
natural none = 0
natural (some n) = n

module _ {Int Decimal : Type 0} (read : Int → Option ℕ) where
  -- What a commitment keeps in the committed wallet.
  abbrev pub weight : Commitment Int Decimal → ℕ
  weight c = if is_funded c.status then natural (read c.amount) else 0

  -- A commitment stands under its identifier, and an open one is funded with an amount that is not
  -- negative.
  pub record Kept (id : String) (c : Commitment Int Decimal) : Type 0 where
    pub named : c.commitment_id ≡ id
    pub is_open :
        is_cancellable c.status ≡ true
        → (is_funded c.status ≡ true) × (n : ℕ) × (read c.amount ≡ some n)

module _ {S Int Decimal : Type 0} {read : Int → Option ℕ} {b : Bank S Int} (bank : IsBank read b)
    (config : TreasuryConfig) where
  pub record Backed (t : Treasury S Int Decimal) : Type 0 where
    pub entries : Entries (Kept read) t.commitments
    pub covered :
        sum_of (weight read) t.commitments ≤ bank.held t.bank config.committed_wallet_address "uftg"
