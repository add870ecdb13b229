-- ===== src/Node/Bridge/Tests.antt =====
-- Runs of the settlement handlers on concrete requests, and instances of what is proved of every
-- request.
use ftg_chain.Base.{◌≡◌, refl, none, List, [], ◌∷◌, arith}
use ftg_chain.Base.Word.{add64, sub64, mul64, div64, neg64}
use ftg_chain.Base.Dict.{lookup, insert}
use ftg_chain.Base.Sprintf.{sprintf, pad}
use ftg_chain.Base.Time.{add_duration, hours}
use ftg_chain.Base.Atoi.{atoi}
use ftg_chain.Base.Result.{ok}
use ftg_chain.Node.Http.{Body, bad_request, failed, post, read_json, query_get, number_or}
use ftg_chain.Settlement.Types.{new_keeper, deposit_not_found}
use ftg_chain.Settlement.Escrows.{
  create_escrow, fund_escrow, fund_found, execute_settlement, execute_found, escrow_id, new_escrow,
  settlement_fee,
}
use ftg_chain.Settlement.Deposits.{get_deposit}
use ftg_chain.Settlement.History.EscrowLedger.{records_of, completions}
use ftg_chain.Node.Bridge.{
  payment_method, CreateEscrowRequest, FundEscrowRequest, ExecuteSettlementRequest,
  handle_create_escrow, handle_fund_escrow, handle_execute_settlement,
}
use ftg_chain.Node.Bridge.Queries.{handle_get_deposit}
use ftg_chain.Node.Bridge.Served.{
  Request, open_escrow, fund, execute, serve, serve_all, served-settled_once,
}

abbrev holding : {A : Type 0} → A → Body A
holding a = record { read_error = none; parsed = ok a }

abbrev sale : CreateEscrowRequest
sale = record {
  trade_id = "FTG-TRD-00000001";
  buyer_wallet_id = "FTG-W-000001";
  seller_wallet_id = "FTG-W-000002";
  amount_usdc = 5000000;
  payment_method = "stripe";
}

abbrev payment : FundEscrowRequest
payment = record { escrow_id = "ESC-000001"; payment_ref = "pi_1" }

abbrev delivery : ExecuteSettlementRequest
delivery = record { escrow_id = "ESC-000001"; ftg_amount = 1000000 }

-- An escrow that is opened, funded and executed, and executed again.
abbrev sold : List Request
sold =
    open_escrow "POST" (holding sale) 10 11
    ∷ fund "POST" (holding payment) 20 21
    ∷ execute "POST" (holding delivery) 7 30
    ∷ execute "POST" (holding delivery) 8 40
    ∷ []

settled : (serve_all sold new_keeper).total_settled_usdc ≡ 5000000
unfolding serve_all serve handle_create_escrow handle_fund_escrow handle_execute_settlement post
    read_json payment_method create_escrow fund_escrow fund_found execute_settlement execute_found
    escrow_id sprintf pad neg64 new_escrow settlement_fee add64 mul64 div64 sub64 lookup insert
    add_duration hours
settled = refl

history_limit : number_or 50 "12" ≡ 12
unfolding number_or atoi
history_limit = refl

no_deposit_id : handle_get_deposit [] new_keeper ≡ bad_request "deposit_id required"
unfolding handle_get_deposit query_get lookup
no_deposit_id = refl

unknown_deposit :
    handle_get_deposit (("deposit_id", "DEP-000009") ∷ []) new_keeper
    ≡ failed (deposit_not_found "DEP-000009")
unfolding handle_get_deposit query_get lookup get_deposit
unknown_deposit = refl

served-settled_once_example :
    let k = serve_all sold new_keeper in
    records_of "ESC-000001" k.settlements ≡ completions (lookup "ESC-000001" k.escrows)
served-settled_once_example = served-settled_once sold "ESC-000001" (omega arith)
