-- ===== src/Exchange/Market.antt =====
-- What x/exchange/keeper/keeper.go shows of the market: GetOrderBook, GetRecentTrades,
-- GetUserOrders and GetExchangeStats; and rebuildOrderBooks, which makes the books from the orders.
-- Where Go walks a map, the model's order is that of the first writes. `none` is a nil dereference.
mod Tests
pub mod Levels
pub mod Depth
pub mod Listing
use ftg_chain.Base.{
  ℕ, suc, ◌-◌, Bool, true, false, not, ◌&&◌, ◌||◌, Option, none, some, List, [], ◌∷◌, ◌++◌, String,
  str_eq, ltb, ◌==◌, if◌then◌else◌,
}
use ftg_chain.Base.Word.{add64, slt, neg64}
use ftg_chain.Base.Dict.{Dict, lookup, insert, size, values_where, count_by}
use ftg_chain.Base.Lists.{length, take, drop, select, sort_slice}
use ftg_chain.Base.Time.{Time, add_duration, hours, is_after}
use ftg_chain.Exchange.Types.{Keeper, Order, OrderStatus, opened, partial, Trade, is_buy}
use ftg_chain.Exchange.Limits.{quote_value}
use ftg_chain.Exchange.Matching.{book_of}
use ftg_chain.Exchange.Orders.{price_of}

pub record OrderBookLevel : Type 0 where
  pub price : ℕ
  pub quantity : ℕ
  pub orders : ℕ

pub record OrderBookSnapshot : Type 0 where
  pub pair_id : String
  pub bids : List OrderBookLevel
  pub asks : List OrderBookLevel
  pub last_price : ℕ
  pub timestamp : Time

-- One order is added to the level of its price.
unfoldable pub add_level : Order → List OrderBookLevel → List OrderBookLevel
add_level o [] = record { price = o.price; quantity = o.remaining_qty; orders = 1 } ∷ []
add_level o (l ∷ ls) =
    if l.price == o.price
    then record l { quantity = add64 l.quantity o.remaining_qty; orders = add64 l.orders 1 } ∷ ls
    else l ∷ add_level o ls

-- The loop over a book.
unfoldable pub add_levels :
    Dict Order → List String → List OrderBookLevel → Option (List OrderBookLevel)
unfolding add_level
add_levels orders [] ls = some ls
add_levels orders (id ∷ ids) ls = elim (lookup id orders) [
  | none ↦ none
  | some o ↦ add_levels orders ids (add_level o ls)
]

abbrev pub higher : OrderBookLevel → OrderBookLevel → Bool
higher l m = slt m.price l.price

abbrev pub lower : OrderBookLevel → OrderBookLevel → Bool
lower l m = slt l.price m.price

-- `if depth > 0 && len(levels) > depth { levels = levels[:depth] }`
unfoldable pub cut : ℕ → List OrderBookLevel → List OrderBookLevel
cut depth ls = if slt 0 depth then take depth ls else ls

unfoldable pub last_price : List Trade → ℕ
last_price [] = 0
last_price (t ∷ []) = t.price
last_price (t ∷ u ∷ ts) = last_price (u ∷ ts)

unfoldable pub get_order_book : String → ℕ → Time → Keeper → Option OrderBookSnapshot
unfolding add_levels cut last_price
get_order_book pair_id depth now k = elim (add_levels k.orders (book_of k.buy_book pair_id) []) [
  | none ↦ none
  | some bids ↦ elim (add_levels k.orders (book_of k.sell_book pair_id) []) [
    | none ↦ none
    | some asks ↦ some (record {
      pair_id = pair_id;
      bids = cut depth (sort_slice higher bids);
      asks = cut depth (sort_slice lower asks);
      last_price = last_price k.trades;
      timestamp = now;
    })
  ]
]

unfoldable pub get_recent_trades : String → ℕ → Keeper → List Trade
get_recent_trades pair_id limit k =
    let ts = select (λ t. str_eq t.pair_id pair_id) k.trades in
    if slt 0 limit && ltb limit (length ts) then drop (length ts - limit) ts else ts

abbrev pub is_open : OrderStatus → Bool
is_open OrderStatus.opened = true
is_open OrderStatus.partial = true
is_open _ = false

unfoldable pub get_user_orders : String → Bool → Keeper → List Order
get_user_orders wallet_id active_only k =
    sort_slice (λ o p. is_after o.created_at p.created_at)
      (values_where (λ o. str_eq o.wallet_id wallet_id && (not active_only || is_open o.status))
        k.orders)

pub record ExchangeStats : Type 0 where
  pub total_wallets : ℕ
  pub active_wallets : ℕ
  pub total_orders : ℕ
  pub open_orders : ℕ
  pub total_trades : ℕ
  pub total_volume_usdc : ℕ
  pub volume_24h_usdc : ℕ
  pub trading_pairs : ℕ
  pub trading_enabled : Bool
  pub registration_open : Bool

-- The volume of the trades that pass a test.
unfoldable pub volume_where : (Trade → Bool) → List Trade → ℕ
volume_where p [] = 0
volume_where p (t ∷ ts) =
    if p t then add64 (quote_value t.price t.quantity) (volume_where p ts) else volume_where p ts

unfoldable pub get_exchange_stats : Time → Keeper → ExchangeStats
unfolding volume_where
get_exchange_stats now k = record {
  total_wallets = size k.wallets;
  active_wallets = count_by (λ w. w.active) k.wallets;
  total_orders = size k.orders;
  open_orders = count_by (λ o. is_open o.status) k.orders;
  total_trades = length k.trades;
  total_volume_usdc = volume_where (λ t. true) k.trades;
  volume_24h_usdc =
      volume_where (λ t. is_after t.executed_at (add_duration now (neg64 (hours 24)))) k.trades;
  trading_pairs = size k.pairs;
  trading_enabled = k.config.trading_enabled;
  registration_open = k.config.registration_open;
}

-- The first loop of rebuildOrderBooks, for the orders of one side: each open order is appended to
-- the book of its pair.
unfoldable pub fill_books : Bool → Dict Order → Dict (List String) → Dict (List String)
fill_books buys [] books = books
fill_books buys ((id, o) ∷ os) books =
    let added = insert o.pair_id (book_of books o.pair_id ++ id ∷ []) books in
    if is_open o.status && (if is_buy o.side then buys else not buys)
    then fill_books buys os added
    else fill_books buys os books

-- Its last loops: each book is sorted.
unfoldable pub sort_books : (String → String → Bool) → Dict (List String) → Dict (List String)
sort_books less [] = []
sort_books less ((pair_id, b) ∷ books) = (pair_id, sort_slice less b) ∷ sort_books less books

unfoldable pub rebuild_order_books : Keeper → Keeper
unfolding fill_books sort_books price_of
rebuild_order_books k = record k {
  buy_book =
      sort_books (λ i j. slt (price_of k.orders j) (price_of k.orders i))
        (fill_books true k.orders []);
  sell_book =
      sort_books (λ i j. slt (price_of k.orders i) (price_of k.orders j))
        (fill_books false k.orders []);
}
