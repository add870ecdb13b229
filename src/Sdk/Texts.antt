-- ===== src/Sdk/Texts.antt =====
-- How messages write addresses and numbers: AccAddressFromBech32, math.NewIntFromString and
-- LegacyNewDecFromStr, where `none` is an error, and AccAddress.String, Int.String
-- and LegacyDec.String.
use ftg_chain.Base.{Option, String}

pub record Texts (Int Decimal : Type 0) : Type 0 where
  pub address_of : String → Option String
  pub int_of : String → Option Int
  pub dec_of : String → Option Decimal
  pub show_address : String → String
  pub show_int : Int → String
  pub show_dec : Decimal → String
