-- ===== src/Exchange/Sample.antt =====
-- An exchange for the tests: an ask of 2 FTG at 1.00, and a bid of 3 FTG at 1.20 to come.
use ftg_chain.Base.{true, none, [], ◌∷◌}
use ftg_chain.Exchange.Types.{
  Keeper, ExchangeWallet, Order, buy, sell, limit, OrderStatus, new_keeper,
}
use ftg_chain.Exchange.Orders.{Request}

abbrev pub seller : ExchangeWallet
seller = record {
  id = "FTG-W-000001";
  user_id = "sam";
  address = "ftg1exchangeFTG-W-000001";
  label = "";
  created_at = 1;
  kyc_tier = 1;
  balances = ("uftg", 5000000) ∷ [];
  locked = ("uftg", 2000000) ∷ [];
  active = true;
}

abbrev pub buyer : ExchangeWallet
buyer = record {
  id = "FTG-W-000002";
  user_id = "bea";
  address = "ftg1exchangeFTG-W-000002";
  label = "";
  created_at = 2;
  kyc_tier = 1;
  balances = ("uusdc", 10000000) ∷ [];
  locked = [];
  active = true;
}

abbrev pub ask : Order
ask = record {
  id = "FTG-ORD-00000001";
  wallet_id = "FTG-W-000001";
  user_id = "sam";
  pair_id = "FTG-USDC";
  side = sell;
  order_type = limit;
  price = 1000000;
  quantity = 2000000;
  filled_qty = 0;
  remaining_qty = 2000000;
  status = OrderStatus.opened;
  created_at = 3;
  updated_at = 3;
  expires_at = none;
}

abbrev pub market : Keeper
market = record new_keeper {
  wallets = ("FTG-W-000001", seller) ∷ ("FTG-W-000002", buyer) ∷ [];
  orders = ("FTG-ORD-00000001", ask) ∷ [];
  sell_book = ("FTG-USDC", "FTG-ORD-00000001" ∷ []) ∷ [];
  wallet_seq = 2;
  order_seq = 1;
}

abbrev pub bid : Request
bid = record {
  wallet_id = "FTG-W-000002";
  pair_id = "FTG-USDC";
  side = buy;
  order_type = limit;
  price = 1200000;
  quantity = 3000000;
  block_height = 7;
}
