-- ===== src/Exchange/History/Tests.antt =====
-- A history of the exchange: two users register, one is verified and pays in, and trades.
use ftg_chain.Exchange.History.Still.{Inactive}
use ftg_chain.Exchange.History.Frozen.{frozen_for_good}
use ftg_chain.Base.{◌≡◌, false, none, some, List, [], ◌∷◌, arith, refl, true}
use ftg_chain.Base.Lists.{All, sort_slice, sort_onto, insert_by}
use ftg_chain.Exchange.Types.{
  Keeper, KycApplication, KycStatus, new_keeper, buy, sell, limit, Order, tier_limit, OrderStatus,
  order_cancelled, wallet_inactive,
}
use ftg_chain.Exchange.Orders.{
  Request, place_order, checked, cancel_order, order_id, lock_denom, lock_amount, new_order,
  price_of, rest_on_book, opened_order, lock_and_match, erase_first, remove_from_book,
  cancel_checked,
}
use ftg_chain.Exchange.Orders.Sound.{BooksOk}
use ftg_chain.Exchange.History.{
  Call, creates_wallet, deposits, withdraws, places, cancels, submits, approves, rejects, run,
  state_of, step,
}
use ftg_chain.Exchange.History.Faultless.{WordSized, run-BooksOk}
use ftg_chain.Base.Word.{add64, neg64, sub64, mul64, div64}
use ftg_chain.Base.Dict.{lookup, insert, amount_of, modify}
use ftg_chain.Base.Sprintf.{sprintf, pad}
use ftg_chain.Base.Result.{ok, err}
use ftg_chain.Exchange.Kyc.{
  has_pending, is_high_risk, run_aml_checks, screened, is_auto_approved, file_kyc, submit_kyc,
  kyc_id,
}
use ftg_chain.Exchange.Wallets.{
  create_wallet, new_wallet, wallet_id, has_active_wallet, deposit_to_wallet, credit, debit, lock,
  unlock, available, withdraw_from_wallet,
}
use ftg_chain.Exchange.Limits.{
  quote_value, limit_key, daily_limit, check_daily_limit, update_daily_limit,
}
use ftg_chain.Exchange.Matching.{
  trade_id, settle_wallets, settle_trade, is_beyond, fill_qty, trade_fee, new_trade, fill,
  filled_maker, execute_fill, match_from, taker_status, close_match, match_order,
}
use ftg_chain.Exchange.History.Retired.{cancelled_for_good}
use ftg_chain.Exchange.Orders.Retired.{OffBooks}

abbrev application : KycApplication
application = record {
  id = "";
  user_id = "sam";
  wallet_id = "FTG-W-000001";
  requested_tier = 1;
  current_tier = 0;
  status = KycStatus.unset;
  email = "sam@example.org";
  phone = "";
  country = "DE";
  full_name = "Sam";
  date_of_birth = "";
  id_type = "";
  id_number = "";
  id_document_hash = "";
  proof_of_address = "";
  company_name = "";
  company_reg_no = "";
  company_country = "";
  aml_risk_score = 0;
  pep_check = false;
  sanctions_check = false;
  submitted_at = 0;
  reviewed_at = none;
  approved_at = none;
  rejected_reason = "";
}

abbrev ask : Request
ask = record {
  wallet_id = "FTG-W-000001";
  pair_id = "FTG-USDC";
  side = sell;
  order_type = limit;
  price = 1000000;
  quantity = 2000000;
  block_height = 1;
}

abbrev bid : Request
bid = record ask { wallet_id = "FTG-W-000002"; side = buy; quantity = 1000000 }

abbrev story : List Call
story =
    creates_wallet "sam" "main" 1
    ∷ submits application 2
    ∷ deposits "FTG-W-000001" "uftg" 5000000
    ∷ creates_wallet "bea" "main" 3
    ∷ submits (record application { user_id = "bea"; wallet_id = "FTG-W-000002" }) 4
    ∷ deposits "FTG-W-000002" "uusdc" 10000000
    ∷ places ask 5 "2026-01-02"
    ∷ places bid 6 "2026-01-02"
    ∷ cancels "FTG-ORD-00000001" "FTG-W-000001" 7
    ∷ withdraws "FTG-W-000001" "uusdc" 900000
    ∷ approves "FTG-KYC-000009" 8
    ∷ rejects "FTG-KYC-000001" "document expired" 9
    ∷ []

story_sized : All WordSized story
story_sized =
    (tt, (tt, (tt, (tt, (tt, (tt, (omega arith, (omega arith, (tt, (tt, (tt, (tt, tt))))))))))))

run-BooksOk_example : (k : Keeper) × (run story new_keeper ≡ some k) × BooksOk k
run-BooksOk_example = run-BooksOk story (omega arith) story_sized

-- The story up to the partial fill of the ask, which is then cancelled, and what follows: a bid that
-- would have met the ask, and another cancellation.
abbrev opening : List Call
opening =
    creates_wallet "sam" "main" 1
    ∷ submits application 2
    ∷ deposits "FTG-W-000001" "uftg" 5000000
    ∷ creates_wallet "bea" "main" 3
    ∷ submits (record application { user_id = "bea"; wallet_id = "FTG-W-000002" }) 4
    ∷ deposits "FTG-W-000002" "uusdc" 10000000
    ∷ places ask 5 "2026-01-02"
    ∷ places bid 6 "2026-01-02"
    ∷ []

abbrev ending : List Call
ending = places bid 8 "2026-01-02" ∷ cancels "FTG-ORD-00000001" "FTG-W-000001" 9 ∷ []

opening_sized : All WordSized opening
opening_sized = (tt, (tt, (tt, (tt, (tt, (tt, (omega arith, (omega arith, tt))))))))

ending_sized : All WordSized ending
ending_sized = (omega arith, (tt, tt))

abbrev reached : Keeper
reached = elim (run opening new_keeper) [ none ↦ new_keeper | some k ↦ k ]

abbrev after_cancel : Keeper
after_cancel = elim (cancel_order "FTG-ORD-00000001" "FTG-W-000001" 7 reached) [
  | none ↦ reached
  | some x ↦ x.0
]

opening_runs : run opening new_keeper ≡ some reached
unfolding run step state_of create_wallet has_active_wallet new_wallet wallet_id submit_kyc
    has_pending lookup insert file_kyc screened run_aml_checks is_high_risk is_auto_approved kyc_id
    deposit_to_wallet credit amount_of place_order checked lock_and_match check_daily_limit
    daily_limit limit_key tier_limit quote_value mul64 div64 add64 sub64 neg64 available modify
    new_order order_id opened_order lock_denom lock_amount lock unlock debit match_order match_from
    is_beyond fill_qty execute_fill settle_trade settle_wallets new_trade trade_id trade_fee fill
    filled_maker taker_status close_match update_daily_limit rest_on_book price_of sort_slice
    sort_onto insert_by sprintf pad
opening_runs = refl

ask_cancelled :
    cancel_order "FTG-ORD-00000001" "FTG-W-000001" 7 reached ≡ some (after_cancel, ok tt)
unfolding run step state_of create_wallet has_active_wallet new_wallet wallet_id submit_kyc
    has_pending lookup insert file_kyc screened run_aml_checks is_high_risk is_auto_approved kyc_id
    deposit_to_wallet credit amount_of place_order checked lock_and_match check_daily_limit
    daily_limit limit_key tier_limit quote_value mul64 div64 add64 sub64 neg64 available modify
    new_order order_id opened_order lock_denom lock_amount lock unlock debit match_order match_from
    is_beyond fill_qty execute_fill settle_trade settle_wallets new_trade trade_id trade_fee fill
    filled_maker taker_status close_match update_daily_limit rest_on_book price_of sort_slice
    sort_onto insert_by sprintf pad cancel_order cancel_checked remove_from_book erase_first
ask_cancelled = refl

cancelled_for_good_example :
    (o : Order) × (k'' : Keeper) × (run ending after_cancel ≡ some k'')
    × (lookup "FTG-ORD-00000001" after_cancel.orders ≡ some o)
    × (lookup "FTG-ORD-00000001" k''.orders ≡ some o)
    × (o.status ≡ OrderStatus.cancelled)
    × OffBooks "FTG-ORD-00000001" k''
    × (cancel_order "FTG-ORD-00000001" "FTG-W-000001" 10 k'' ≡ some (k'', err order_cancelled))
cancelled_for_good_example =
    cancelled_for_good opening ending "FTG-ORD-00000001" "FTG-W-000001" 7 10 reached after_cancel
      (omega arith) opening_sized ending_sized opening_runs ask_cancelled

-- An applicant from Iran is refused, and submits again from another country.
abbrev from_iran : KycApplication
from_iran = record application { country = "IR" }

abbrev registered : List Call
registered = creates_wallet "sam" "main" 1 ∷ deposits "FTG-W-000001" "uftg" 5000000 ∷ []

abbrev second_try : List Call
second_try = submits application 3 ∷ creates_wallet "sam" "other" 4 ∷ []

abbrev sam_waits : Keeper
sam_waits = elim (run registered new_keeper) [ none ↦ new_keeper | some k ↦ k ]

abbrev frozen : Keeper
frozen = (submit_kyc from_iran 2 sam_waits).0

abbrev refused : KycApplication
refused = record from_iran {
  id = "FTG-KYC-000001";
  status = KycStatus.rejected;
  aml_risk_score = 80;
  sanctions_check = true;
  submitted_at = 2;
  rejected_reason = "OFAC/EU sanctions list match";
}

abbrev tried_again : Keeper
tried_again = elim (run second_try frozen) [ none ↦ frozen | some k ↦ k ]

registered_runs : run registered new_keeper ≡ some sam_waits
unfolding run step state_of create_wallet has_active_wallet new_wallet wallet_id submit_kyc
    has_pending lookup insert file_kyc screened run_aml_checks is_high_risk is_auto_approved kyc_id
    deposit_to_wallet credit amount_of add64 sprintf pad neg64
registered_runs = refl

iran : is_high_risk "IR" ≡ true
unfolding is_high_risk
iran = refl

iran_refused : submit_kyc from_iran 2 sam_waits ≡ (frozen, ok refused)
unfolding run step state_of create_wallet has_active_wallet new_wallet wallet_id submit_kyc
    has_pending lookup insert file_kyc screened run_aml_checks is_high_risk is_auto_approved kyc_id
    deposit_to_wallet credit amount_of add64 sprintf pad neg64
iran_refused = refl

second_try_runs : run second_try frozen ≡ some tried_again
unfolding run step state_of create_wallet has_active_wallet new_wallet wallet_id submit_kyc
    has_pending lookup insert file_kyc screened run_aml_checks is_high_risk is_auto_approved kyc_id
    deposit_to_wallet credit amount_of add64 sprintf pad neg64
second_try_runs = refl

frozen_for_good_example :
    Inactive "FTG-W-000001" tried_again.wallets
    × (place_order ask 5 "2026-01-02" tried_again ≡ some (tried_again, err wallet_inactive))
    × (deposit_to_wallet "FTG-W-000001" "uftg" 7 tried_again ≡ (tried_again, err wallet_inactive))
    × (withdraw_from_wallet "FTG-W-000001" "uftg" 7 tried_again
        ≡ (tried_again, err wallet_inactive))
    × (frozen.orders ≡ sam_waits.orders)
    × (frozen.buy_book ≡ sam_waits.buy_book)
    × (frozen.sell_book ≡ sam_waits.sell_book)
frozen_for_good_example =
    frozen_for_good registered second_try from_iran refused 2 5 sam_waits frozen tried_again ask
      "2026-01-02" "uftg" 7 (omega arith) registered_runs iran iran_refused second_try_runs refl
