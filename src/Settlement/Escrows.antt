-- ===== src/Settlement/Escrows.antt =====
-- The escrow and settlement flow of x/settlement/keeper/keeper.go: CreateEscrow, FundEscrow,
-- ExecuteSettlement and RefundEscrow, with the queries over escrows and settlements.
use ftg_chain.Base.{ℕ, zero, suc, ◌-◌, ◌||◌, none, some, List, [], ◌∷◌, ◌++◌, String, if◌then◌else◌}
use ftg_chain.Base.Word.{add64, sub64, mul64, div64, slt, sle}
use ftg_chain.Base.Dict.{lookup, insert}
use ftg_chain.Base.Lists.{length, get_elem?}
use ftg_chain.Base.Sprintf.{sprintf}
use ftg_chain.Base.Time.{Time, add_duration, hours, is_after}
use ftg_chain.Base.Result.{Result, ok, err}
use ftg_chain.Settlement.Types.{
  Keeper, SettlementConfig, PaymentMethod, EscrowAccount, SettlementRecord, SettlementStatus, Error,
  below_minimum, above_maximum, escrow_not_found, escrow_cannot_fund, escrow_not_funded,
  escrow_has_expired, escrow_is_completed, is_pending, is_funded, is_completed,
}

unfoldable pub escrow_id : ℕ → String
unfolding sprintf
escrow_id = sprintf "ESC-" 6

unfoldable pub settlement_id : ℕ → String
unfolding sprintf
settlement_id = sprintf "STL-" 6

-- fee := amountUSDC * int64(SettlementFeeBPS) / 10_000
unfoldable pub settlement_fee : SettlementConfig → ℕ → ℕ
unfolding mul64 div64
settlement_fee c amount = div64 (mul64 amount c.settlement_fee_bps) 10000

unfoldable pub new_escrow :
    Keeper → String → String → String → ℕ → PaymentMethod → Time → Time → EscrowAccount
new_escrow k trade_id buyer seller amount method created_at expires_from = record {
  id = escrow_id (add64 k.escrow_seq 1);
  trade_id = trade_id;
  buyer_wallet_id = buyer;
  seller_wallet_id = seller;
  amount_usdc = amount;
  fee_usdc = settlement_fee k.config amount;
  status = SettlementStatus.pending;
  payment_method = method;
  payment_ref = "";
  created_at = created_at;
  funded_at = none;
  completed_at = none;
  expires_at = add_duration expires_from (hours k.config.escrow_timeout_hours);
}

unfoldable pub create_escrow :
    String
    → String
    → String
    → ℕ
    → PaymentMethod
    → Time
    → Time
    → Keeper
    → Keeper × Result Error EscrowAccount
create_escrow trade_id buyer seller amount method created_at expires_from k =
    if slt amount k.config.min_settlement_usdc
    then (k, err (below_minimum k.config.min_settlement_usdc))
    else if slt k.config.max_settlement_usdc amount
    then (k, err (above_maximum k.config.max_settlement_usdc))
    else (let escrow = new_escrow k trade_id buyer seller amount method created_at expires_from in
        (
          record k {
            escrow_seq = add64 k.escrow_seq 1;
            escrows = insert (escrow_id (add64 k.escrow_seq 1)) escrow k.escrows;
            active_escrows = add64 k.active_escrows 1;
          },
          ok escrow,
        ))

-- FundEscrow, once the escrow is found: a pending escrow is funded within its time, and fails
-- after it.
unfoldable pub fund_found :
    String → String → Time → Time → Keeper → EscrowAccount → Keeper × Result Error EscrowAccount
fund_found id payment_ref checked_at now k escrow =
    if is_pending escrow.status
    then (if is_after checked_at escrow.expires_at
        then (
          record k {
            escrows = insert id (record escrow { status = SettlementStatus.failed }) k.escrows;
            active_escrows = sub64 k.active_escrows 1;
          },
          err (escrow_has_expired id),
        )
        else (let paid = record escrow {
          status = SettlementStatus.funded;
          payment_ref = payment_ref;
          funded_at = some now;
        } in
            (record k { escrows = insert id paid k.escrows }, ok paid)))
    else (k, err (escrow_cannot_fund id escrow.status))

unfoldable pub fund_escrow :
    String → String → Time → Time → Keeper → Keeper × Result Error EscrowAccount
unfolding fund_found
fund_escrow id payment_ref checked_at now k = elim (lookup id k.escrows) [
  | none ↦ (k, err (escrow_not_found id))
  | some escrow ↦ fund_found id payment_ref checked_at now k escrow
]

-- pricePerFTG: uusdc for 1,000,000 uftg, and 0 where no tokens were delivered.
unfoldable pub price_per_ftg : ℕ → ℕ → ℕ
unfolding mul64 div64
price_per_ftg usdc ftg_amount =
    if slt 0 ftg_amount then div64 (mul64 usdc 1000000) ftg_amount else 0

unfoldable pub new_settlement : String → ℕ → ℕ → Time → Keeper → EscrowAccount → SettlementRecord
new_settlement id ftg_amount block_height now k escrow = record {
  id = settlement_id (add64 k.settlement_seq 1);
  escrow_id = id;
  trade_id = escrow.trade_id;
  buyer_wallet_id = escrow.buyer_wallet_id;
  seller_wallet_id = escrow.seller_wallet_id;
  ftg_amount = ftg_amount;
  usdc_amount = escrow.amount_usdc;
  price_per_ftg = price_per_ftg escrow.amount_usdc ftg_amount;
  fee_collected = escrow.fee_usdc;
  payment_method = escrow.payment_method;
  block_height = block_height;
  settled_at = now;
}

-- ExecuteSettlement, once the escrow is found.
unfoldable pub execute_found :
    String → ℕ → ℕ → Time → Keeper → EscrowAccount → Keeper × Result Error SettlementRecord
execute_found id ftg_amount block_height now k escrow =
    if is_funded escrow.status
    then (let settled = new_settlement id ftg_amount block_height now k escrow in
        (
          record k {
            escrows =
                insert id
                  (record escrow { status = SettlementStatus.completed; completed_at = some now })
                  k.escrows;
            active_escrows = sub64 k.active_escrows 1;
            settlement_seq = add64 k.settlement_seq 1;
            settlements = k.settlements ++ settled ∷ [];
            total_settled_usdc = add64 k.total_settled_usdc escrow.amount_usdc;
            total_fees_collected = add64 k.total_fees_collected escrow.fee_usdc;
          },
          ok settled,
        ))
    else (k, err (escrow_not_funded id escrow.status))

unfoldable pub execute_settlement :
    String → ℕ → ℕ → Time → Keeper → Keeper × Result Error SettlementRecord
unfolding execute_found
execute_settlement id ftg_amount block_height now k = elim (lookup id k.escrows) [
  | none ↦ (k, err (escrow_not_found id))
  | some escrow ↦ execute_found id ftg_amount block_height now k escrow
]

-- RefundEscrow, once the escrow is found. The test that guards `ActiveEscrows--` reads the status
-- that was written just before it.
unfoldable pub refund_found : String → Keeper → EscrowAccount → Keeper × Result Error (Unit {0})
refund_found id k escrow =
    if is_completed escrow.status
    then (k, err (escrow_is_completed id))
    else (let escrow' = record escrow { status = SettlementStatus.refunded } in
        (
          record k {
            escrows = insert id escrow' k.escrows;
            active_escrows =
                if is_funded escrow'.status || is_pending escrow'.status
                then sub64 k.active_escrows 1
                else k.active_escrows;
          },
          ok tt,
        ))

unfoldable pub refund_escrow : String → String → Keeper → Keeper × Result Error (Unit {0})
unfolding refund_found
refund_escrow id reason k = elim (lookup id k.escrows) [
  | none ↦ (k, err (escrow_not_found id))
  | some escrow ↦ refund_found id k escrow
]

unfoldable pub get_escrow : String → Keeper → Result Error EscrowAccount
get_escrow id k = elim (lookup id k.escrows) [
  | none ↦ err (escrow_not_found id)
  | some escrow ↦ ok escrow
]

-- for i := len - 1; i >= start; i-- { result = append(result, Settlements[i]) }, from the rounds
-- left and the index after the current one.
unfoldable pub collect_down : ℕ → ℕ → List SettlementRecord → List SettlementRecord
collect_down zero i all = []
collect_down (suc rounds) i all = elim (get_elem? all (i - 1)) [
  | none ↦ collect_down rounds (i - 1) all
  | some r ↦ r ∷ collect_down rounds (i - 1) all
]

-- GetSettlements: the most recent ones first, all of them if the limit is not positive or beyond
-- their number.
unfoldable pub get_settlements : ℕ → Keeper → List SettlementRecord
unfolding collect_down
get_settlements limit k =
    let total = length k.settlements in
    collect_down (if sle limit 0 || slt total limit then total else limit) total k.settlements
