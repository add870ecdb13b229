-- ===== src/Sdk/Bank.antt =====
-- The bank keeper: balances and transfers of one coin. `none` is an error, which leaves the balances
-- alone, or the panic of `sdk.NewCoin` on a negative amount. The accounts have no locked coins, so
-- that all of a balance can be spent.
use ftg_chain.Base.{ℕ, ◌+◌, ◌≤◌, ◌≡◌, ◌≢◌, Option, none, some, String}

pub record Bank (S Int : Type 0) : Type 0 where
  pub get_balance : S → String → String → Int
  -- SendCoins(from, to, sdk.NewCoins(sdk.NewCoin(denom, amount)))
  pub send_coins : String → String → String → Int → S → Option S

-- `held` is what an address has of a coin, for the reading of Ints that the numbers have.
pub record IsBank {S Int : Type 0} (read : Int → Option ℕ) (b : Bank S Int) : Type 0 where
  pub held : S → String → String → ℕ
  pub get_balance-held :
      (s : S) (a denom : String) → read (b.get_balance s a denom) ≡ some (held s a denom)
  pub send_coins-negative :
      (from to denom : String) (i : Int) (s : S)
      → read i ≡ none
      → b.send_coins from to denom i s ≡ none
  pub send_coins-enough :
      (from to denom : String) (i : Int) (n : ℕ) (s : S)
      → read i ≡ some n
      → n ≤ held s from denom
      → (s' : S) × (b.send_coins from to denom i s ≡ some s')
  pub send_coins-held :
      (from to denom : String) (i : Int) (n : ℕ) (s s' : S)
      → read i ≡ some n
      → b.send_coins from to denom i s ≡ some s'
      → from ≢ to
      → (held s' from denom + n ≡ held s from denom) × (held s' to denom ≡ held s to denom + n)
  pub send_coins-self :
      (a denom : String) (i : Int) (n : ℕ) (s s' : S)
      → read i ≡ some n
      → b.send_coins a a denom i s ≡ some s'
      → held s' a denom ≡ held s a denom
  pub send_coins-other :
      (from to denom a : String) (i : Int) (n : ℕ) (s s' : S)
      → read i ≡ some n
      → b.send_coins from to denom i s ≡ some s'
      → a ≢ from
      → a ≢ to
      → held s' a denom ≡ held s a denom
