-- ===== src/Burn/Types.antt =====
-- x/burn/types/types.go, and the store of x/burn/keeper/keeper.go with the bank's state beside it. An
-- event that is written as JSON is read back as it was. An address is the text of its bytes.
use ftg_chain.Base.{ℕ, Bool, true, Option, List, [], String}
use ftg_chain.Base.Dict.{Dict}
use ftg_chain.Base.Time.{Time}
use ftg_chain.Sdk.Numbers.{Numbers}

pub record MerchantBurnData (Decimal : Type 0) : Type 0 where
  pub energy_revenue_usd : Decimal
  pub dex_purchase_price : Decimal
  pub vault_id : String
  pub grid_operator : String

pub record BurnEvent (Int Decimal : Type 0) : Type 0 where
  pub burn_id : String
  pub amount : Int
  pub source : String
  pub sender : String
  pub timestamp : Time
  pub tx_hash : String
  pub merchant_data : Option (MerchantBurnData Decimal)

pub record BurnStats (Int Decimal : Type 0) : Type 0 where
  pub total_burned : Int
  pub total_burn_events : ℕ
  pub merchant_protocol_burned : Int
  pub manual_burned : Int
  pub redemption_burned : Int
  pub total_energy_revenue_usd : Decimal

pub record Params (Int Decimal : Type 0) : Type 0 where
  pub merchant_protocol_enabled : Bool
  pub merchant_burn_percentage : Decimal
  pub min_burn_amount : Int
  pub authorized_merchant_addresses : List String

pub record Store (S Int Decimal : Type 0) : Type 0 where
  pub bank : S
  pub burn_events : Dict (BurnEvent Int Decimal)
  pub count : ℕ
  pub stats : BurnStats Int Decimal
  pub authorized_merchants : Dict (Unit {0})

-- Why a burn fails, with the values that the message shows. `overflowed` is the panic of a sum, which
-- ends the transaction and takes back what it wrote.
pub data Error (Int : Type 0) : Type 0 where
  invalid_source not_authorized : String → Error Int
  protocol_disabled send_failed burn_failed overflowed : Error Int
  below_minimum insufficient_balance : Int → Int → Error Int

module _ {Int Decimal : Type 0} (m : Numbers Int Decimal) where
  -- DefaultParams
  abbrev pub default_params : Params Int Decimal
  default_params = record {
    merchant_protocol_enabled = true;
    merchant_burn_percentage = m.new_dec_with_prec 100 0;
    min_burn_amount = m.new_int 1000000;
    authorized_merchant_addresses = [];
  }

  -- The statistics where none are stored.
  abbrev pub zero_stats : BurnStats Int Decimal
  zero_stats = record {
    total_burned = m.new_int 0;
    total_burn_events = 0;
    merchant_protocol_burned = m.new_int 0;
    manual_burned = m.new_int 0;
    redemption_burned = m.new_int 0;
    total_energy_revenue_usd = m.new_dec_with_prec 0 0;
  }

  abbrev pub new_store : {S : Type 0} → S → Store S Int Decimal
  new_store s = record {
    bank = s;
    burn_events = [];
    count = 0;
    stats = zero_stats;
    authorized_merchants = [];
  }
