-- ===== src/Exchange/Orders/Tests.antt =====
-- A bid that is refused, and an ask that is cancelled.
use ftg_chain.Base.{◌≡◌, refl, some, [], ◌∷◌}
use ftg_chain.Base.Word.{add64, sub64, mul64, div64, neg64}
use ftg_chain.Base.Dict.{lookup, insert, amount_of, modify}
use ftg_chain.Base.Lists.{sort_slice, sort_onto, insert_by}
use ftg_chain.Base.Sprintf.{sprintf, pad}
use ftg_chain.Base.Result.{err}
use ftg_chain.Exchange.Types.{Keeper, tier_limit, Error}
use ftg_chain.Exchange.Wallets.{credit, debit, lock, unlock, available}
use ftg_chain.Exchange.Limits.{
  quote_value, limit_key, daily_limit, check_daily_limit, update_daily_limit,
}
use ftg_chain.Exchange.Matching.{
  trade_id, settle_wallets, settle_trade, is_beyond, fill_qty, trade_fee, new_trade, fill,
  filled_maker, execute_fill, match_from, taker_status, close_match, match_order,
}
use ftg_chain.Exchange.Orders.{
  Request, checked, place_order, order_id, lock_denom, lock_amount, new_order, price_of,
  rest_on_book, opened_order, lock_and_match,
}
use ftg_chain.Exchange.Orders.Admitted.{place_order-err}
use ftg_chain.Exchange.Orders.Cancelled.{as_cancelled}
use ftg_chain.Exchange.Sample.{seller, buyer, ask, market, bid}

-- A bid that the buyer cannot pay for.
abbrev large_bid : Request
large_bid = record bid { quantity = 30000000 }

abbrev after_refusal : Keeper
after_refusal = record market {
  daily_limits =
      (
        "bea/2026-01-02",
        record {
          user_id = "bea";
          date = "2026-01-02";
          buy_volume = 0;
          sell_volume = 0;
          total_volume = 0;
        },
      )
      ∷ [];
}

large_bid_refused :
    place_order large_bid 10 "2026-01-02" market
    ≡ some (after_refusal, err Error.insufficient_balance)
unfolding place_order checked lock_and_match check_daily_limit daily_limit limit_key tier_limit
    quote_value mul64 div64 add64 sub64 neg64 available amount_of modify lookup insert new_order
    order_id opened_order lock_denom lock_amount lock unlock credit debit match_order match_from
    is_beyond fill_qty execute_fill settle_trade settle_wallets new_trade trade_id trade_fee fill
    filled_maker taker_status close_match update_daily_limit rest_on_book price_of sort_slice
    sort_onto insert_by sprintf pad
large_bid_refused = refl

place_order-err_example :
    after_refusal ≡ record market { daily_limits = after_refusal.daily_limits }
place_order-err_example =
    place_order-err large_bid 10 "2026-01-02" market after_refusal Error.insufficient_balance
      large_bid_refused

-- The seller cancels the ask.
abbrev after_cancel : Keeper
after_cancel = record market {
  wallets =
      ("FTG-W-000001", record seller { locked = ("uftg", 0) ∷ [] }) ∷ ("FTG-W-000002", buyer) ∷ [];
  orders = ("FTG-ORD-00000001", as_cancelled 20 ask) ∷ [];
  sell_book = ("FTG-USDC", []) ∷ [];
}
