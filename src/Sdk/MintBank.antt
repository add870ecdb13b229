-- ===== src/Sdk/MintBank.antt =====
-- The bank keeper of x/energymint: a module mints coins and sends them to an account. `none` is an
-- error, which leaves the balances alone, or the panic of `sdk.NewCoin` on a negative amount.
use ftg_chain.Base.{Option, String}

pub record MintBank (S Int : Type 0) : Type 0 where
  pub mint_coins : String → String → Int → S → Option S
  -- SendCoinsFromModuleToAccount(module, recipient, sdk.NewCoins(sdk.NewCoin(denom, amount)))
  pub send_from_module : String → String → String → Int → S → Option S
