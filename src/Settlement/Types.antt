-- ===== src/Settlement/Types.antt =====
-- x/settlement/types/types.go and the state of x/settlement/keeper/keeper.go. Amounts are int64
-- words in uusdc. A status is the set of the texts that the code assigns; a payment method is any
-- text, the five named ones apart.
use ftg_chain.Base.{ℕ, Bool, true, false, Option, List, [], String}
use ftg_chain.Base.Dict.{Dict}
use ftg_chain.Base.Time.{Time}

pub data PaymentMethod : Type 0 where
  bank_wire circle_mint noble_ibc stablecoin stripe : PaymentMethod
  other_method : String → PaymentMethod

pub data SettlementStatus : Type 0 where
  pending funded executing completed failed refunded disputed : SettlementStatus

pub record EscrowAccount : Type 0 where
  pub id : String
  pub trade_id : String
  pub buyer_wallet_id : String
  pub seller_wallet_id : String
  pub amount_usdc : ℕ
  pub fee_usdc : ℕ
  pub status : SettlementStatus
  pub payment_method : PaymentMethod
  pub payment_ref : String
  pub created_at : Time
  pub funded_at : Option Time
  pub completed_at : Option Time
  pub expires_at : Time

pub record SettlementRecord : Type 0 where
  pub id : String
  pub escrow_id : String
  pub trade_id : String
  pub buyer_wallet_id : String
  pub seller_wallet_id : String
  pub ftg_amount : ℕ
  pub usdc_amount : ℕ
  pub price_per_ftg : ℕ
  pub fee_collected : ℕ
  pub payment_method : PaymentMethod
  pub block_height : ℕ
  pub settled_at : Time

pub data DepositStatus : Type 0 where
  pending confirmed expired : DepositStatus

pub record DepositIntent : Type 0 where
  pub id : String
  pub wallet_id : String
  pub user_id : String
  pub amount : ℕ
  pub payment_method : PaymentMethod
  pub status : DepositStatus
  pub payment_ref : String
  pub deposit_address : String
  pub created_at : Time
  pub confirmed_at : Option Time
  pub expires_at : Time

pub data WithdrawalStatus : Type 0 where
  pending completed : WithdrawalStatus

pub record WithdrawalRequest : Type 0 where
  pub id : String
  pub wallet_id : String
  pub user_id : String
  pub amount : ℕ
  pub payment_method : PaymentMethod
  pub status : WithdrawalStatus
  pub destination_ref : String
  pub created_at : Time
  pub processed_at : Option Time

pub record SettlementConfig : Type 0 where
  pub escrow_timeout_hours : ℕ
  pub min_settlement_usdc : ℕ
  pub max_settlement_usdc : ℕ
  pub settlement_fee_bps : ℕ
  pub withdrawal_fee_flat : ℕ
  pub withdrawal_fee_bps : ℕ
  pub bank_wire_enabled : Bool
  pub stripe_enabled : Bool
  pub crypto_enabled : Bool
  pub noble_ibc_enabled : Bool
  pub circle_api_enabled : Bool

abbrev pub default_settlement_config : SettlementConfig
default_settlement_config = record {
  escrow_timeout_hours = 24;
  min_settlement_usdc = 500000;
  max_settlement_usdc = 1000000000000;
  settlement_fee_bps = 10;
  withdrawal_fee_flat = 1000000;
  withdrawal_fee_bps = 5;
  bank_wire_enabled = false;
  stripe_enabled = true;
  crypto_enabled = true;
  noble_ibc_enabled = false;
  circle_api_enabled = false;
}

pub record Keeper : Type 0 where
  pub escrows : Dict EscrowAccount
  pub settlements : List SettlementRecord
  pub deposits : Dict DepositIntent
  pub withdrawals : Dict WithdrawalRequest
  pub config : SettlementConfig
  pub total_settled_usdc : ℕ
  pub total_fees_collected : ℕ
  pub total_deposited : ℕ
  pub total_withdrawn : ℕ
  pub active_escrows : ℕ
  pub escrow_seq : ℕ
  pub settlement_seq : ℕ
  pub deposit_seq : ℕ
  pub withdrawal_seq : ℕ

-- The keeper of a home directory that holds no saved state.
abbrev pub new_keeper : Keeper
new_keeper = record {
  escrows = [];
  settlements = [];
  deposits = [];
  withdrawals = [];
  config = default_settlement_config;
  total_settled_usdc = 0;
  total_fees_collected = 0;
  total_deposited = 0;
  total_withdrawn = 0;
  active_escrows = 0;
  escrow_seq = 0;
  settlement_seq = 0;
  deposit_seq = 0;
  withdrawal_seq = 0;
}

-- Why a call fails, with the values that the message shows.
pub data Error : Type 0 where
  below_minimum : ℕ → Error
  above_maximum : ℕ → Error
  method_disabled : PaymentMethod → Error
  amount_within_fee : ℕ → Error
  deposit_not_found withdrawal_not_found escrow_not_found : String → Error
  deposit_already : String → DepositStatus → Error
  withdrawal_already : String → WithdrawalStatus → Error
  escrow_cannot_fund escrow_not_funded : String → SettlementStatus → Error
  deposit_has_expired escrow_has_expired escrow_is_completed : String → Error

-- isMethodEnabled
unfoldable pub is_method_enabled : SettlementConfig → PaymentMethod → Bool
is_method_enabled c bank_wire = c.bank_wire_enabled
is_method_enabled c stripe = c.stripe_enabled
is_method_enabled c stablecoin = c.crypto_enabled
is_method_enabled c noble_ibc = c.noble_ibc_enabled
is_method_enabled c circle_mint = c.circle_api_enabled
is_method_enabled c (other_method _) = false

abbrev pub is_pending : SettlementStatus → Bool
is_pending SettlementStatus.pending = true
is_pending _ = false

abbrev pub is_funded : SettlementStatus → Bool
is_funded funded = true
is_funded _ = false

abbrev pub is_completed : SettlementStatus → Bool
is_completed SettlementStatus.completed = true
is_completed _ = false
