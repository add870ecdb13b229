-- ===== src/Settlement/History/Tests.antt =====
-- A history of the settlement keeper: a deposit, a withdrawal, an escrow that is paid out and one
-- that is refunded.
use ftg_chain.Base.{ℕ, ◌+◌, ◌≡◌, ◌%◌, refl, none, some, List, [], ◌∷◌, ◌++◌, String, arith}
use ftg_chain.Base.Word.{word, add64, mul64, div64, neg64}
use ftg_chain.Base.Dict.{lookup, insert, sum_by, count_by}
use ftg_chain.Base.Sprintf.{sprintf, pad}
use ftg_chain.Base.Time.{add_duration, hours}
use ftg_chain.Settlement.Types.{
  Keeper, EscrowAccount, SettlementRecord, SettlementStatus, stripe, stablecoin, new_keeper,
  is_method_enabled,
}
use ftg_chain.Settlement.Escrows.{
  create_escrow, new_escrow, settlement_fee, escrow_id, refund_escrow,
}
use ftg_chain.Settlement.History.{
  Call, creates_deposit, confirms_deposit, creates_withdrawal, processes_withdrawal, creates_escrow,
  funds_escrow, executes_settlement, refunds_escrow, step, run,
}
use ftg_chain.Settlement.History.DepositLedger.{confirmed_amount, deposited_total}
use ftg_chain.Settlement.History.WithdrawalLedger.{withdrawn_amount, withdrawn_total}
use ftg_chain.Settlement.History.FeeLedger.{request_fee, escrow_fee, fees_total}
use ftg_chain.Settlement.History.EscrowLedger.{
  settled_amount, total_usdc, records_of, completions, settled_total, settled_once,
}
use ftg_chain.Settlement.History.Lifecycle.{Evolves, step-Evolves}
use ftg_chain.Settlement.History.Active.{is_active, active_escrows_counted, refund_escrow_leaks}
use ftg_chain.Base.Result.{ok}
use ftg_chain.Settlement.Recent.{get_settlements-reversed}
use ftg_chain.Settlement.Escrows.{get_settlements}

abbrev quiet : List Call
quiet =
    creates_deposit "FTG-W-000001" "sam" 5000000 stripe 10 10
    ∷ confirms_deposit "DEP-000001" "pi_1" 20 20
    ∷ creates_withdrawal "FTG-W-000001" "sam" 3000000 stablecoin "0xabc" 30
    ∷ processes_withdrawal "WDR-000001" 40
    ∷ creates_escrow "FTG-TRD-00000001" "FTG-W-000002" "FTG-W-000001" 2000000 stripe 50 50
    ∷ funds_escrow "ESC-000001" "pi_2" 60 60
    ∷ executes_settlement "ESC-000001" 2000000 7 70
    ∷ executes_settlement "ESC-000001" 2000000 8 80
    ∷ creates_escrow "FTG-TRD-00000002" "FTG-W-000002" "FTG-W-000001" 1000000 stripe 90 90
    ∷ []

abbrev story : List Call
story = quiet ++ refunds_escrow "ESC-000002" "too late" ∷ []

deposited_total_example :
    (run story new_keeper).total_deposited ≡ sum_by confirmed_amount (run story new_keeper).deposits
deposited_total_example = deposited_total story (omega arith)

withdrawn_total_example :
    (run story new_keeper).total_withdrawn
    ≡ sum_by withdrawn_amount (run story new_keeper).withdrawals
withdrawn_total_example = withdrawn_total story (omega arith)

fees_total_example :
    let k = run story new_keeper in
    k.total_fees_collected ≡ add64 (sum_by request_fee k.withdrawals) (sum_by escrow_fee k.escrows)
fees_total_example = fees_total story (omega arith)

settled_total_example :
    let k = run story new_keeper in
    (k.total_settled_usdc ≡ total_usdc k.settlements)
    × (k.total_settled_usdc ≡ sum_by settled_amount k.escrows)
settled_total_example = settled_total story (omega arith)

settled_once_example :
    let k = run story new_keeper in
    records_of "ESC-000001" k.settlements ≡ completions (lookup "ESC-000001" k.escrows)
settled_once_example = settled_once story "ESC-000001" (omega arith)

active_escrows_counted_example :
    (run quiet new_keeper).active_escrows ≡ count_by is_active (run quiet new_keeper).escrows % word
active_escrows_counted_example =
    active_escrows_counted quiet (omega arith)
      (refl, (refl, (refl, (refl, (refl, (refl, (refl, (refl, (refl, tt)))))))))

-- One escrow, as CreateEscrow makes it.
abbrev opening : List Call
opening = creates_escrow "FTG-TRD-00000001" "FTG-W-000002" "FTG-W-000001" 2000000 stripe 50 50 ∷ []

abbrev escrow : EscrowAccount
escrow = record {
  id = "ESC-000001";
  trade_id = "FTG-TRD-00000001";
  buyer_wallet_id = "FTG-W-000002";
  seller_wallet_id = "FTG-W-000001";
  amount_usdc = 2000000;
  fee_usdc = 2000;
  status = SettlementStatus.pending;
  payment_method = stripe;
  payment_ref = "";
  created_at = 50;
  funded_at = none;
  completed_at = none;
  expires_at = 86400000000050;
}

escrow_opened : lookup "ESC-000001" (run opening new_keeper).escrows ≡ some escrow
unfolding run step create_escrow new_escrow escrow_id sprintf pad neg64 add64 mul64 div64 hours
    add_duration lookup insert is_method_enabled settlement_fee
escrow_opened = refl

step-Evolves_example : Evolves escrow (
    lookup "ESC-000001"
      (step (funds_escrow "ESC-000001" "pi_1" 60 60) (run opening new_keeper)).escrows)
step-Evolves_example =
    step-Evolves opening (funds_escrow "ESC-000001" "pi_1" 60 60) "ESC-000001" escrow (omega arith)
      escrow_opened

refund_escrow_leaks_example :
    let k = run opening new_keeper in
    let (k', result) = refund_escrow "ESC-000001" "changed mind" k in
    let k'' = run quiet k' in
    (result ≡ ok tt)
    × (k'.active_escrows ≡ k.active_escrows)
    × (count_by is_active k'.escrows + 1 ≡ count_by is_active k.escrows)
    × (k''.active_escrows ≡ (count_by is_active k''.escrows + 1) % word)
refund_escrow_leaks_example =
    refund_escrow_leaks opening quiet "ESC-000001" "changed mind" escrow (omega arith) (refl, tt)
      (refl, (refl, (refl, (refl, (refl, (refl, (refl, (refl, (refl, tt))))))))) escrow_opened refl

-- A keeper with two settlement records.
abbrev settlement : String → ℕ → SettlementRecord
settlement id amount = record {
  id = id;
  escrow_id = id;
  trade_id = id;
  buyer_wallet_id = "FTG-W-000002";
  seller_wallet_id = "FTG-W-000001";
  ftg_amount = amount;
  usdc_amount = amount;
  price_per_ftg = 1000000;
  fee_collected = 0;
  payment_method = stripe;
  block_height = 1;
  settled_at = 1;
}

abbrev two_settled : Keeper
two_settled = record new_keeper {
  settlements = settlement "SET-000001" 5 ∷ settlement "SET-000002" 6 ∷ [];
}

get_settlements-reversed_example : get_settlements 1 two_settled ≡ settlement "SET-000002" 6 ∷ []
get_settlements-reversed_example =
    get_settlements-reversed 1 two_settled (omega arith) (omega arith)
