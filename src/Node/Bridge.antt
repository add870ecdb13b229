-- ===== src/Node/Bridge.antt =====
-- The handlers of cmd/ftgd/rpc_settlement.go over the settlement keeper. The readings of the clock
-- that the keeper makes, and the node's height, are arguments.
pub mod Queries
pub mod Served
mod Tests
use mathlib.Core.Option
use ftg_chain.Base.{ℕ, String, str_eq, if◌then◌else◌}
use ftg_chain.Base.Time.{Time}
use ftg_chain.Base.Result.{Result, ok, err}
use ftg_chain.Node.Http.{Body, Response, failed, success, post, respond}
use ftg_chain.Settlement.Types.{
  Keeper, PaymentMethod, bank_wire, circle_mint, noble_ibc, stablecoin, stripe, other_method,
  DepositIntent, WithdrawalRequest, EscrowAccount, SettlementRecord, Error,
}
use ftg_chain.Settlement.Deposits.{create_deposit_intent, confirm_deposit}
use ftg_chain.Settlement.Withdrawals.{create_withdrawal_request, process_withdrawal}
use ftg_chain.Settlement.Escrows.{create_escrow, fund_escrow, execute_settlement, refund_escrow}

-- types.PaymentMethod(s)
unfoldable pub payment_method : String → PaymentMethod
payment_method s =
    if str_eq s "bank_wire"
    then bank_wire
    else if str_eq s "circle_mint"
    then circle_mint
    else if str_eq s "noble_ibc"
    then noble_ibc
    else if str_eq s "stablecoin"
    then stablecoin
    else if str_eq s "stripe"
    then stripe
    else other_method s

pub record CreateDepositRequest : Type 0 where
  pub wallet_id : String
  pub user_id : String
  pub amount : ℕ
  pub payment_method : String

unfoldable pub handle_create_deposit :
    String
    → Body CreateDepositRequest
    → Time
    → Time
    → Keeper
    → Keeper × Response Error DepositIntent
unfolding payment_method
handle_create_deposit method body t₁ t₂ k =
    post method body
      (λ req s. respond (
        create_deposit_intent req.wallet_id req.user_id req.amount
          (payment_method req.payment_method) t₁ t₂ s))
      k

pub record ConfirmDepositRequest : Type 0 where
  pub deposit_id : String
  pub payment_ref : String

unfoldable pub handle_confirm_deposit :
    String
    → Body ConfirmDepositRequest
    → Time
    → Time
    → Keeper
    → Keeper × Response Error DepositIntent
handle_confirm_deposit method body t₁ t₂ k =
    post method body (λ req s. respond (confirm_deposit req.deposit_id req.payment_ref t₁ t₂ s)) k

pub record CreateWithdrawalRequest : Type 0 where
  pub wallet_id : String
  pub user_id : String
  pub amount : ℕ
  pub payment_method : String
  pub destination_ref : String

unfoldable pub handle_create_withdrawal :
    String
    → Body CreateWithdrawalRequest
    → Time
    → Keeper
    → Keeper × Response Error WithdrawalRequest
unfolding payment_method
handle_create_withdrawal method body t k =
    post method body
      (λ req s. respond (
        create_withdrawal_request req.wallet_id req.user_id req.amount
          (payment_method req.payment_method) req.destination_ref t s))
      k

pub record ProcessWithdrawalRequest : Type 0 where
  pub withdrawal_id : String

unfoldable pub handle_process_withdrawal :
    String
    → Body ProcessWithdrawalRequest
    → Time
    → Keeper
    → Keeper × Response Error WithdrawalRequest
handle_process_withdrawal method body t k =
    post method body (λ req s. respond (process_withdrawal req.withdrawal_id t s)) k

pub record CreateEscrowRequest : Type 0 where
  pub trade_id : String
  pub buyer_wallet_id : String
  pub seller_wallet_id : String
  pub amount_usdc : ℕ
  pub payment_method : String

unfoldable pub handle_create_escrow :
    String → Body CreateEscrowRequest → Time → Time → Keeper → Keeper × Response Error EscrowAccount
unfolding payment_method
handle_create_escrow method body t₁ t₂ k =
    post method body
      (λ req s. respond (
        create_escrow req.trade_id req.buyer_wallet_id req.seller_wallet_id req.amount_usdc
          (payment_method req.payment_method) t₁ t₂ s))
      k

pub record FundEscrowRequest : Type 0 where
  pub escrow_id : String
  pub payment_ref : String

unfoldable pub handle_fund_escrow :
    String → Body FundEscrowRequest → Time → Time → Keeper → Keeper × Response Error EscrowAccount
handle_fund_escrow method body t₁ t₂ k =
    post method body (λ req s. respond (fund_escrow req.escrow_id req.payment_ref t₁ t₂ s)) k

pub record ExecuteSettlementRequest : Type 0 where
  pub escrow_id : String
  pub ftg_amount : ℕ

unfoldable pub handle_execute_settlement :
    String
    → Body ExecuteSettlementRequest
    → ℕ
    → Time
    → Keeper
    → Keeper × Response Error SettlementRecord
handle_execute_settlement method body height t k =
    post method body (λ req s. respond (execute_settlement req.escrow_id req.ftg_amount height t s))
      k

pub record RefundEscrowRequest : Type 0 where
  pub escrow_id : String
  pub reason : String

pub record RefundEscrowAnswer : Type 0 where
  pub message : String
  pub escrow_id : String

unfoldable pub refund_answer :
    RefundEscrowRequest
    → Keeper × Result Error (Unit {0})
    → Keeper × Response Error RefundEscrowAnswer
refund_answer req (k, err e) = (k, failed e)
refund_answer req (k, ok _) =
    (k, success (record { message = "Escrow refunded"; escrow_id = req.escrow_id }))

unfoldable pub handle_refund_escrow :
    String → Body RefundEscrowRequest → Keeper → Keeper × Response Error RefundEscrowAnswer
unfolding refund_answer
handle_refund_escrow method body k =
    post method body (λ req s. refund_answer req (refund_escrow req.escrow_id req.reason s)) k
