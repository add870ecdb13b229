-- ===== src/Node/Bridge/Queries.antt =====
-- The handlers of cmd/ftgd/rpc_settlement.go that read the settlement keeper: each takes the query
-- of the request. `in_usd` is `float64(x) / 1_000_000`.
use ftg_chain.Base.{ℕ, List, String, str_eq, if◌then◌else◌}
use ftg_chain.Base.Dict.{Dict}
use ftg_chain.Base.Lists.{length}
use ftg_chain.Node.Http.{Response, bad_request, success, query_get, answered, number_or}
use ftg_chain.Settlement.Types.{
  Keeper, DepositIntent, WithdrawalRequest, EscrowAccount, SettlementRecord, Error,
}
use ftg_chain.Settlement.Deposits.{get_deposit, get_user_deposits}
use ftg_chain.Settlement.Withdrawals.{get_user_withdrawals}
use ftg_chain.Settlement.Escrows.{get_escrow, get_settlements}
use ftg_chain.Settlement.Stats.{SettlementStats, get_stats}

unfoldable pub handle_get_deposit : Dict String → Keeper → Response Error DepositIntent
unfolding query_get
handle_get_deposit query k =
    let deposit_id = query_get "deposit_id" query in
    if str_eq deposit_id ""
    then bad_request "deposit_id required"
    else answered (get_deposit deposit_id k)

unfoldable pub handle_list_deposits : Dict String → Keeper → Response Error (List DepositIntent × ℕ)
unfolding query_get
handle_list_deposits query k =
    let user_id = query_get "user_id" query in
    if str_eq user_id ""
    then bad_request "user_id required"
    else (let deposits = get_user_deposits user_id k in success (deposits, length deposits))

unfoldable pub handle_list_withdrawals :
    Dict String → Keeper → Response Error (List WithdrawalRequest × ℕ)
unfolding query_get
handle_list_withdrawals query k =
    let user_id = query_get "user_id" query in
    if str_eq user_id ""
    then bad_request "user_id required"
    else (let withdrawals = get_user_withdrawals user_id k in
        success (withdrawals, length withdrawals))

unfoldable pub handle_get_escrow : Dict String → Keeper → Response Error EscrowAccount
unfolding query_get
handle_get_escrow query k =
    let escrow_id = query_get "escrow_id" query in
    if str_eq escrow_id ""
    then bad_request "escrow_id required"
    else answered (get_escrow escrow_id k)

-- A limit that is missing, or is no number, is 50.
unfoldable pub handle_settlement_history :
    Dict String → Keeper → Response Error (List SettlementRecord × ℕ)
unfolding query_get number_or
handle_settlement_history query k =
    let settlements = get_settlements (number_or 50 (query_get "limit" query)) k in
    success (settlements, length settlements)

unfoldable pub handle_settlement_stats :
    {F : Type 0} → (ℕ → F) → Keeper → Response Error (SettlementStats F)
handle_settlement_stats in_usd k = success (get_stats in_usd k)
