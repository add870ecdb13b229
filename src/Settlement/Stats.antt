-- ===== src/Settlement/Stats.antt =====
-- GetStats of x/settlement/keeper/keeper.go. `in_usd` is `float64(x) / 1_000_000`.
use ftg_chain.Base.{ℕ, Bool, true, false}
use ftg_chain.Base.Dict.{count_by}
use ftg_chain.Base.Lists.{length}
use ftg_chain.Settlement.Types.{Keeper, DepositStatus, WithdrawalStatus}

pub record SettlementStats (F : Type 0) : Type 0 where
  pub total_settlements : ℕ
  pub total_settled_usdc : ℕ
  pub total_settled_usd : F
  pub total_fees_collected : ℕ
  pub total_fees_usd : F
  pub total_deposited_usdc : ℕ
  pub total_deposited_usd : F
  pub total_withdrawn_usdc : ℕ
  pub total_withdrawn_usd : F
  pub active_escrows : ℕ
  pub pending_deposits : ℕ
  pub pending_withdrawals : ℕ
  pub settlement_fee_bps : ℕ
  pub stripe_enabled : Bool
  pub crypto_enabled : Bool
  pub bank_wire_enabled : Bool
  pub noble_ibc_enabled : Bool

abbrev pub awaits_payment : DepositStatus → Bool
awaits_payment DepositStatus.pending = true
awaits_payment _ = false

abbrev pub awaits_processing : WithdrawalStatus → Bool
awaits_processing WithdrawalStatus.pending = true
awaits_processing _ = false

unfoldable pub get_stats : {F : Type 0} → (ℕ → F) → Keeper → SettlementStats F
get_stats in_usd k = record {
  total_settlements = length k.settlements;
  total_settled_usdc = k.total_settled_usdc;
  total_settled_usd = in_usd k.total_settled_usdc;
  total_fees_collected = k.total_fees_collected;
  total_fees_usd = in_usd k.total_fees_collected;
  total_deposited_usdc = k.total_deposited;
  total_deposited_usd = in_usd k.total_deposited;
  total_withdrawn_usdc = k.total_withdrawn;
  total_withdrawn_usd = in_usd k.total_withdrawn;
  active_escrows = k.active_escrows;
  pending_deposits = count_by (λ d. awaits_payment d.status) k.deposits;
  pending_withdrawals = count_by (λ w. awaits_processing w.status) k.withdrawals;
  settlement_fee_bps = k.config.settlement_fee_bps;
  stripe_enabled = k.config.stripe_enabled;
  crypto_enabled = k.config.crypto_enabled;
  bank_wire_enabled = k.config.bank_wire_enabled;
  noble_ibc_enabled = k.config.noble_ibc_enabled;
}
