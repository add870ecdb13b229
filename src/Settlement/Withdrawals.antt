-- ===== src/Settlement/Withdrawals.antt =====
-- The withdrawal flow of x/settlement/keeper/keeper.go: CreateWithdrawalRequest and
-- ProcessWithdrawal, with the query over withdrawals.
use ftg_chain.Base.{ℕ, none, some, List, String, if◌then◌else◌, str_eq}
use ftg_chain.Base.Word.{add64, mul64, div64, sle}
use ftg_chain.Base.Dict.{lookup, insert, values_where}
use ftg_chain.Base.Sprintf.{sprintf}
use ftg_chain.Base.Time.{Time}
use ftg_chain.Base.Result.{Result, ok, err}
use ftg_chain.Settlement.Types.{
  Keeper, SettlementConfig, PaymentMethod, WithdrawalRequest, WithdrawalStatus, Error,
  method_disabled, amount_within_fee, withdrawal_not_found, withdrawal_already, is_method_enabled,
}

unfoldable pub withdrawal_id : ℕ → String
unfolding sprintf
withdrawal_id = sprintf "WDR-" 6

-- fee := WithdrawalFeeFlat + (amount * int64(WithdrawalFeeBPS) / 10_000)
unfoldable pub withdrawal_fee : SettlementConfig → ℕ → ℕ
unfolding add64 mul64 div64
withdrawal_fee c amount =
    add64 c.withdrawal_fee_flat (div64 (mul64 amount c.withdrawal_fee_bps) 10000)

unfoldable pub new_withdrawal_request :
    Keeper → String → String → ℕ → PaymentMethod → String → Time → WithdrawalRequest
new_withdrawal_request k wallet_id user_id amount method destination_ref created_at = record {
  id = withdrawal_id (add64 k.withdrawal_seq 1);
  wallet_id = wallet_id;
  user_id = user_id;
  amount = amount;
  payment_method = method;
  status = WithdrawalStatus.pending;
  destination_ref = destination_ref;
  created_at = created_at;
  processed_at = none;
}

unfoldable pub create_withdrawal_request :
    String
    → String
    → ℕ
    → PaymentMethod
    → String
    → Time
    → Keeper
    → Keeper × Result Error WithdrawalRequest
create_withdrawal_request wallet_id user_id amount method destination_ref created_at k =
    if is_method_enabled k.config method
    then (if sle amount (withdrawal_fee k.config amount)
        then (k, err (amount_within_fee (withdrawal_fee k.config amount)))
        else (let req =
              new_withdrawal_request k wallet_id user_id amount method destination_ref created_at in
            (
              record k {
                withdrawal_seq = add64 k.withdrawal_seq 1;
                withdrawals = insert (withdrawal_id (add64 k.withdrawal_seq 1)) req k.withdrawals;
              },
              ok req,
            )))
    else (k, err (method_disabled method))

-- ProcessWithdrawal, once the request is found.
unfoldable pub process_request :
    String
    → Time
    → Keeper
    → WithdrawalRequest
    → WithdrawalStatus
    → Keeper × Result Error WithdrawalRequest
process_request id now k req WithdrawalStatus.pending =
    let done = record req { status = WithdrawalStatus.completed; processed_at = some now } in
    (
      record k {
        withdrawals = insert id done k.withdrawals;
        total_withdrawn = add64 k.total_withdrawn req.amount;
        total_fees_collected = add64 k.total_fees_collected (withdrawal_fee k.config req.amount);
      },
      ok done,
    )
process_request id now k req WithdrawalStatus.completed =
    (k, err (withdrawal_already id WithdrawalStatus.completed))

unfoldable pub process_withdrawal : String → Time → Keeper → Keeper × Result Error WithdrawalRequest
unfolding process_request
process_withdrawal id now k = elim (lookup id k.withdrawals) [
  | none ↦ (k, err (withdrawal_not_found id))
  | some req ↦ process_request id now k req req.status
]

unfoldable pub get_user_withdrawals : String → Keeper → List WithdrawalRequest
get_user_withdrawals user_id k = values_where (λ w. str_eq w.user_id user_id) k.withdrawals
