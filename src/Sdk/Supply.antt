-- ===== src/Sdk/Supply.antt =====
-- The bank keeper of x/burn: the coins of an account go to a module, which burns them. `none` is an
-- error, which leaves the balances alone, or the panic of `sdk.NewCoin` on a negative amount.
use ftg_chain.Base.{Option, String}

pub record Supply (S Int : Type 0) : Type 0 where
  pub get_balance : S → String → String → Int
  -- SendCoinsFromAccountToModule(sender, module, sdk.NewCoins(sdk.NewCoin(denom, amount)))
  pub send_to_module : String → String → String → Int → S → Option S
  pub burn_coins : String → String → Int → S → Option S
