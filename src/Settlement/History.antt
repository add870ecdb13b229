-- ===== src/Settlement/History.antt =====
-- Histories of the settlement keeper: any sequence of calls, each with its readings of the clock,
-- from any callers. A call leaves the state that it has written, also where it returns an error.
mod Tests
pub mod Cases
pub mod EscrowCases
pub mod DepositLedger
pub mod WithdrawalLedger
pub mod FeeLedger
pub mod EscrowLedger
pub mod Lifecycle
pub mod Active
use ftg_chain.Base.{ℕ, List, [], ◌∷◌, String}
use ftg_chain.Base.Time.{Time}
use ftg_chain.Settlement.Types.{Keeper, PaymentMethod}
use ftg_chain.Settlement.Deposits.{create_deposit_intent, confirm_deposit}
use ftg_chain.Settlement.Withdrawals.{create_withdrawal_request, process_withdrawal}
use ftg_chain.Settlement.Escrows.{create_escrow, fund_escrow, execute_settlement, refund_escrow}

pub data Call : Type 0 where
  creates_deposit : String → String → ℕ → PaymentMethod → Time → Time → Call
  confirms_deposit : String → String → Time → Time → Call
  creates_withdrawal : String → String → ℕ → PaymentMethod → String → Time → Call
  processes_withdrawal : String → Time → Call
  creates_escrow : String → String → String → ℕ → PaymentMethod → Time → Time → Call
  funds_escrow : String → String → Time → Time → Call
  executes_settlement : String → ℕ → ℕ → Time → Call
  refunds_escrow : String → String → Call

unfoldable pub step : Call → Keeper → Keeper
step (creates_deposit w u amount m t₁ t₂) k = (create_deposit_intent w u amount m t₁ t₂ k).0
step (confirms_deposit id r t₁ t₂) k = (confirm_deposit id r t₁ t₂ k).0
step (creates_withdrawal w u amount m d t) k = (create_withdrawal_request w u amount m d t k).0
step (processes_withdrawal id t) k = (process_withdrawal id t k).0
step (creates_escrow x b s amount m t₁ t₂) k = (create_escrow x b s amount m t₁ t₂ k).0
step (funds_escrow id r t₁ t₂) k = (fund_escrow id r t₁ t₂ k).0
step (executes_settlement id ftg h t) k = (execute_settlement id ftg h t k).0
step (refunds_escrow id reason) k = (refund_escrow id reason k).0

unfoldable pub run : List Call → Keeper → Keeper
run [] k = k
run (c ∷ cs) k = run cs (step c k)
