-- ===== src/Exchange/Wallets/Totals.antt =====
-- The sum over all wallets of the balances in one denomination, as a word, under each write.
use ftg_chain.Base.{
  ℕ, ◌<◌, ◌≡◌, refl, ◌∙◌, inl, inr, Bool, true, false, Option, none, some, String, arith, str_eq,
  eq_iff, if◌then◌else◌, Bool-cases, Option-cases,
}
use ftg_chain.Base.Word.{word, add64, sub64}
use ftg_chain.Base.Dict.{
  Dict, lookup, insert, lookup-insert, amount_of, modify, sum_by, sum_by-insert, sum_by_lt,
}
use ftg_chain.Exchange.Types.{ExchangeWallet}
use ftg_chain.Exchange.Wallets.{credit, debit, lock, unlock}

abbrev pub balance : String → ExchangeWallet → ℕ
balance denom w = amount_of denom w.balances

unfoldable pub total : String → Dict ExchangeWallet → ℕ
total denom ws = sum_by (balance denom) ws

abbrev pub is_some {ℓ} : {A : Type ℓ} → Option A → Bool
is_some none = false
is_some (some a) = true

pub is_some-value {ℓ} : {A : Type ℓ} (o : Option A) → is_some o ≡ true → (a : A) × (o ≡ some a)
is_some-value none h = absurd (cc)
is_some-value (some a) h = (a, refl)

abbrev pub present : String → Dict ExchangeWallet → Bool
present id ws = is_some (lookup id ws)

pub amount_of-insert :
    (c d : String) (n : ℕ) (m : Dict ℕ)
    → amount_of d (insert c n m) ≡ (if str_eq c d then n else amount_of d m)
unfolding amount_of
amount_of-insert c d n m = elim (Bool-cases (str_eq c d)) [
  | inl same ↦ rw (lookup-insert c d n m, amount_of, same)
  | inr other ↦ rw (lookup-insert c d n m, amount_of, other)
]

-- What a write of one amount moves, where the wallet is there and the denomination is meant.
abbrev pub moved : Bool → ℕ → ℕ
moved b n = if b then n else 0

module _ (f : ExchangeWallet → ExchangeWallet) (id : String) (ws : Dict ExchangeWallet) where
  pub present-modify : (j : String) → present j (modify f id ws) ≡ present j ws
  unfolding modify
  present-modify j = elim (Option-cases (lookup id ws)) [
    | inl e ↦ rw (e, modify)
    | inr (w, e) ↦ rw (e, modify) (ground (arith, lookup-insert id j (f w) ws, eq_iff id j))
  ]

-- A write that moves the wallet's balance by `delta` moves the total by it, where the wallet is there.
total-modify :
    (d : String) (f : ExchangeWallet → ExchangeWallet) (delta : ℕ)
    → ((w : ExchangeWallet) → add64 (balance d (f w)) 0 ≡ add64 (balance d w) delta)
    → (id : String) (ws : Dict ExchangeWallet)
    → total d (modify f id ws) ≡ add64 (total d ws) (moved (present id ws) delta)
unfolding modify total add64
total-modify d f delta h id ws = elim (Option-cases (lookup id ws)) [
  | inl e ↦ rw (e, modify) (omega (arith, sum_by_lt (balance d) ws))
  | inr (w, e) ↦
      rw (e, modify)
        (omega (
          arith,
          h w,
          sum_by-insert (balance d) id (f w) w ws e,
          sum_by_lt (balance d) (insert id (f w) ws),
        ))
]

pub total_lt : (d : String) (ws : Dict ExchangeWallet) → total d ws < word
unfolding total
total_lt d ws = sum_by_lt (balance d) ws

total_still :
    (d : String) (ws : Dict ExchangeWallet) (b : Bool) → add64 (total d ws) (moved b 0) ≡ total d ws
unfolding add64
total_still d ws b = let h = total_lt d ws in ground arith

module _ (c d : String) (x : ℕ) (id : String) (ws : Dict ExchangeWallet) where
  pub total-credit :
      total d (modify (credit c x) id ws)
      ≡ add64 (total d ws) (moved (present id ws) (moved (str_eq c d) x))
  unfolding credit
  total-credit =
      total-modify d (credit c x) (moved (str_eq c d) x)
        (λ w.
          rw (amount_of-insert c d (add64 (amount_of c w.balances) x) w.balances)
            (unfold add64 in ground (arith, eq_iff c d)))
        id ws

  pub total-debit :
      total d (modify (debit c x) id ws)
      ≡ add64 (total d ws) (moved (present id ws) (moved (str_eq c d) (sub64 0 x)))
  unfolding debit
  total-debit =
      total-modify d (debit c x) (moved (str_eq c d) (sub64 0 x))
        (λ w.
          rw (amount_of-insert c d (sub64 (amount_of c w.balances) x) w.balances)
            (unfold add64 sub64 in ground (arith, eq_iff c d)))
        id ws

  pub total-lock : total d (modify (lock c x) id ws) ≡ total d ws
  unfolding lock
  total-lock = total-modify d (lock c x) 0 (λ w. refl) id ws ∙ total_still d ws (present id ws)

  pub total-unlock : total d (modify (unlock c x) id ws) ≡ total d ws
  unfolding unlock
  total-unlock = total-modify d (unlock c x) 0 (λ w. refl) id ws ∙ total_still d ws (present id ws)

pub ruleset totals = (present-modify, total-credit, total-debit, total-lock, total-unlock)

pub present-insert :
    (i j : String) (w : ExchangeWallet) (ws : Dict ExchangeWallet)
    → present j ws ≡ true
    → present j (insert i w ws) ≡ true
present-insert i j w ws h = elim (Bool-cases (str_eq i j)) [
  | inl same ↦ rw (lookup-insert i j w ws, same, is_some) refl
  | inr other ↦ rw (lookup-insert i j w ws, other, is_some) h
]
