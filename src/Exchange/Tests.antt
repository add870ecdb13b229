-- ===== src/Exchange/Tests.antt =====
-- PlaceOrder at concrete inputs: the bid meets the ask.
use ftg_chain.Base.{◌≡◌, refl, true, none, some, [], ◌∷◌}
use ftg_chain.Base.Word.{add64, sub64, mul64, div64, neg64}
use ftg_chain.Base.Dict.{lookup, insert, amount_of, modify}
use ftg_chain.Base.Lists.{sort_slice, sort_onto, insert_by}
use ftg_chain.Base.Sprintf.{sprintf, pad}
use ftg_chain.Base.Result.{ok}
use ftg_chain.Exchange.Types.{
  Keeper, TradingPair, Order, buy, sell, limit, OrderStatus, Trade, tier_limit,
}
use ftg_chain.Exchange.Wallets.{credit, debit, lock, unlock, available}
use ftg_chain.Exchange.Wallets.Totals.{total}
use ftg_chain.Exchange.Limits.{
  quote_value, limit_key, daily_limit, check_daily_limit, update_daily_limit,
}
use ftg_chain.Exchange.Matching.{
  trade_id, settle_wallets, settle_trade, is_beyond, fill_qty, trade_fee, new_trade, fill,
  filled_maker, execute_fill, match_from, taker_status, close_match, match_order,
}
use ftg_chain.Exchange.Matching.Fills.{Allowed, with_all_fees, with_quantities}
use ftg_chain.Exchange.Orders.{
  checked, place_order, order_id, lock_denom, lock_amount, new_order, price_of, rest_on_book,
  opened_order, lock_and_match,
}
use ftg_chain.Exchange.Orders.Money.{place_order-total, place_order-quantities, place_order-Allowed}
use ftg_chain.Base.Lists.{All}
use ftg_chain.Exchange.Sample.{market, bid}

abbrev fill_trade : Trade
fill_trade = record {
  id = "FTG-TRD-00000001";
  pair_id = "FTG-USDC";
  maker_order = "FTG-ORD-00000001";
  taker_order = "FTG-ORD-00000002";
  maker_wallet = "FTG-W-000001";
  taker_wallet = "FTG-W-000002";
  side = buy;
  price = 1000000;
  quantity = 2000000;
  maker_fee = 2000;
  taker_fee = 5000;
  executed_at = 10;
  block_height = 7;
}

abbrev bid_order : Order
bid_order = record {
  id = "FTG-ORD-00000002";
  wallet_id = "FTG-W-000002";
  user_id = "bea";
  pair_id = "FTG-USDC";
  side = buy;
  order_type = limit;
  price = 1200000;
  quantity = 3000000;
  filled_qty = 2000000;
  remaining_qty = 1000000;
  status = OrderStatus.partial;
  created_at = 10;
  updated_at = 10;
  expires_at = none;
}

abbrev after : Keeper
after = record {
  wallets =
      (
        "FTG-W-000001",
        record {
          id = "FTG-W-000001";
          user_id = "sam";
          address = "ftg1exchangeFTG-W-000001";
          label = "";
          created_at = 1;
          kyc_tier = 1;
          balances = ("uftg", 3000000) ∷ ("uusdc", 1998000) ∷ [];
          locked = ("uftg", 0) ∷ [];
          active = true;
        },
      )
      ∷ (
        "FTG-W-000002",
        record {
          id = "FTG-W-000002";
          user_id = "bea";
          address = "ftg1exchangeFTG-W-000002";
          label = "";
          created_at = 2;
          kyc_tier = 1;
          balances = ("uusdc", 7995000) ∷ ("uftg", 2000000) ∷ [];
          locked = ("uusdc", 1600000) ∷ [];
          active = true;
        },
      )
      ∷ [];
  orders =
      (
        "FTG-ORD-00000001",
        record {
          id = "FTG-ORD-00000001";
          wallet_id = "FTG-W-000001";
          user_id = "sam";
          pair_id = "FTG-USDC";
          side = sell;
          order_type = limit;
          price = 1000000;
          quantity = 2000000;
          filled_qty = 2000000;
          remaining_qty = 0;
          status = OrderStatus.filled;
          created_at = 3;
          updated_at = 10;
          expires_at = none;
        },
      )
      ∷ ("FTG-ORD-00000002", bid_order)
      ∷ [];
  trades = fill_trade ∷ [];
  kyc_apps = [];
  pairs =
      (
        "FTG-USDC",
        record {
          id = "FTG-USDC";
          base_denom = "uftg";
          quote_denom = "uusdc";
          base_symbol = "FTG";
          quote_symbol = "USDC";
          min_order_size = 1000000;
          price_increment = 10000;
          size_increment = 100000;
          maker_fee = 10;
          taker_fee = 25;
          active = true;
        },
      )
      ∷ [];
  daily_limits =
      (
        "bea/2026-01-02",
        record {
          user_id = "bea";
          date = "2026-01-02";
          buy_volume = 0;
          sell_volume = 0;
          total_volume = 2000000;
        },
      )
      ∷ (
        "sam/2026-01-02",
        record {
          user_id = "sam";
          date = "2026-01-02";
          buy_volume = 0;
          sell_volume = 0;
          total_volume = 2000000;
        },
      )
      ∷ [];
  config = record {
    fee_collector = "ftg_fee_collector";
    trading_enabled = true;
    registration_open = true;
    aml_threshold = 10000000000;
    tier_limits = (0, 0) ∷ (1, 1000000000) ∷ (2, 50000000000) ∷ (3, 0) ∷ [];
  };
  buy_book = ("FTG-USDC", "FTG-ORD-00000002" ∷ []) ∷ [];
  sell_book = ("FTG-USDC", []) ∷ [];
  wallet_seq = 2;
  order_seq = 2;
  trade_seq = 1;
  kyc_seq = 0;
}

bid_runs : place_order bid 10 "2026-01-02" market ≡ some (after, ok (bid_order, fill_trade ∷ []))
unfolding place_order checked lock_and_match check_daily_limit daily_limit limit_key tier_limit
    quote_value mul64 div64 add64 sub64 neg64 available amount_of modify lookup insert new_order
    order_id opened_order lock_denom lock_amount lock unlock credit debit match_order match_from
    is_beyond fill_qty execute_fill settle_trade settle_wallets new_trade trade_id trade_fee fill
    filled_maker taker_status close_match update_daily_limit rest_on_book price_of sort_slice
    sort_onto insert_by sprintf pad
bid_runs = refl

place_order-total_example :
    (pair : TradingPair) × (lookup "FTG-USDC" market.pairs ≡ some pair)
    × (with_all_fees "uusdc" pair (fill_trade ∷ []) (total "uusdc" after.wallets)
        ≡ total "uusdc" market.wallets)
place_order-total_example =
    place_order-total "uusdc" bid 10 "2026-01-02" market after bid_order (fill_trade ∷ []) bid_runs

place_order-quantities_example :
    (bid_order.filled_qty ≡ with_quantities (fill_trade ∷ []) 0)
    × (add64 bid_order.filled_qty bid_order.remaining_qty ≡ add64 0 3000000)
place_order-quantities_example =
    place_order-quantities bid 10 "2026-01-02" market after bid_order (fill_trade ∷ []) bid_runs

place_order-Allowed_example :
    (bid_order.wallet_id ≡ bid.wallet_id)
    × (bid_order.side ≡ bid.side)
    × (bid_order.order_type ≡ bid.order_type)
    × (bid_order.price ≡ bid.price)
    × All (Allowed bid_order) (fill_trade ∷ [])
place_order-Allowed_example =
    place_order-Allowed bid 10 "2026-01-02" market after bid_order (fill_trade ∷ []) bid_runs
