-- ===== src/Exchange/Market/Tests.antt =====
-- An order book at concrete inputs: two bids at one price and one at another, and no asks.
use ftg_chain.Base.{ℕ, ◌≡◌, refl, none, some, [], ◌∷◌, String}
use ftg_chain.Base.Word.{add64}
use ftg_chain.Base.Dict.{lookup}
use ftg_chain.Base.Lists.{sort_slice, sort_onto, insert_by}
use ftg_chain.Exchange.Types.{Keeper, Order, OrderStatus, buy, limit, new_keeper}
use ftg_chain.Exchange.Market.{
  OrderBookSnapshot, add_level, add_levels, cut, last_price, get_order_book,
}

abbrev bid : String → ℕ → ℕ → Order
bid id price left = record {
  id = id;
  wallet_id = "FTG-W-000001";
  user_id = "sam";
  pair_id = "FTG-USDC";
  side = buy;
  order_type = limit;
  price = price;
  quantity = left;
  filled_qty = 0;
  remaining_qty = left;
  status = OrderStatus.opened;
  created_at = 1;
  updated_at = 1;
  expires_at = none;
}

abbrev market : Keeper
market = record new_keeper {
  orders = ("a", bid "a" 100 5) ∷ ("b", bid "b" 200 6) ∷ ("c", bid "c" 100 7) ∷ [];
  buy_book = ("FTG-USDC", "b" ∷ "a" ∷ "c" ∷ []) ∷ [];
}

abbrev shown : OrderBookSnapshot
shown = record {
  pair_id = "FTG-USDC";
  bids =
      record { price = 200; quantity = 6; orders = 1 }
      ∷ record { price = 100; quantity = 12; orders = 2 }
      ∷ [];
  asks = [];
  last_price = 0;
  timestamp = 9;
}

snapshot_taken : get_order_book "FTG-USDC" 0 9 market ≡ some shown
unfolding get_order_book add_levels add_level cut last_price sort_slice sort_onto insert_by lookup
    add64
snapshot_taken = refl

-- The same book to a depth of one.
abbrev best : OrderBookSnapshot
best = record shown { bids = record { price = 200; quantity = 6; orders = 1 } ∷ [] }
