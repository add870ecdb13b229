-- ===== src/Exchange/Orders.antt =====
-- PlaceOrder, CancelOrder and removeFromBook of x/exchange/keeper/keeper.go. `none` is a nil
-- dereference. The readings of the clock in one call are taken as one.
mod Tests
pub mod Placed
pub mod Money
pub mod Sound
pub mod Retired
pub mod Retiring
pub mod Written
pub mod Steps
pub mod Placing
pub mod Cancelled
pub mod Cancelling
pub mod Admitted
use mathlib.Core.Option
use ftg_chain.Base.{
  ℕ, Bool, true, false, not, ◌&&◌, Option, none, some, List, [], ◌∷◌, ◌++◌, String, str_eq,
  if◌then◌else◌,
}
use ftg_chain.Base.Word.{add64, slt, sle}
use ftg_chain.Base.Dict.{Dict, lookup, insert, modify}
use ftg_chain.Base.Lists.{sort_slice}
use ftg_chain.Base.Sprintf.{sprintf}
use ftg_chain.Base.Time.{Time}
use ftg_chain.Base.Result.{Result, ok, err, ◌>>=◌, ◌>>◌, check, or_err}
use ftg_chain.Exchange.Types.{
  Keeper, ExchangeWallet, TradingPair, Order, OrderSide, OrderType, OrderStatus, Trade, Error,
  wallet_not_found, wallet_inactive, insufficient_balance, insufficient_kyc, order_not_found,
  order_cancelled, order_filled, invalid_price, below_min_order, pair_not_found, pair_inactive,
  trading_disabled, unauthorized, kyc_tier_basic, is_buy, is_limit,
}
use ftg_chain.Exchange.Wallets.{lock, unlock, available}
use ftg_chain.Exchange.Limits.{quote_value, check_daily_limit}
use ftg_chain.Exchange.Matching.{Matched, match_order, book_of}

unfoldable pub order_id : ℕ → String
unfolding sprintf
order_id = sprintf "FTG-ORD-" 8

-- What the caller asks for.
pub record Request : Type 0 where
  pub wallet_id : String
  pub pair_id : String
  pub side : OrderSide
  pub order_type : OrderType
  pub price : ℕ
  pub quantity : ℕ
  pub block_height : ℕ

-- The checks of PlaceOrder before the daily limit, in the order of the source.
unfoldable pub checked : Request → Keeper → Result Error (ExchangeWallet × TradingPair)
checked r k = do
  w ← or_err (lookup r.wallet_id k.wallets) wallet_not_found
  check w.active wallet_inactive
  check (not (slt w.kyc_tier kyc_tier_basic)) insufficient_kyc
  check k.config.trading_enabled trading_disabled
  pair ← or_err (lookup r.pair_id k.pairs) pair_not_found
  check pair.active pair_inactive
  check (not (slt r.quantity pair.min_order_size)) below_min_order
  check (not (is_limit r.order_type && sle r.price 0)) invalid_price
  ok (w, pair)

-- What an order locks: the quote for a buy, the base for any other side.
unfoldable pub lock_denom : OrderSide → TradingPair → String
lock_denom side pair = if is_buy side then pair.quote_denom else pair.base_denom

unfoldable pub lock_amount : OrderSide → ℕ → ℕ → ℕ
lock_amount side price quantity = if is_buy side then quote_value price quantity else quantity

unfoldable pub new_order : Request → ExchangeWallet → ℕ → Time → Order
new_order r w seq now = record {
  id = order_id seq;
  wallet_id = r.wallet_id;
  user_id = w.user_id;
  pair_id = r.pair_id;
  side = r.side;
  order_type = r.order_type;
  price = r.price;
  quantity = r.quantity;
  filled_qty = 0;
  remaining_qty = r.quantity;
  status = OrderStatus.opened;
  created_at = now;
  updated_at = now;
  expires_at = none;
}

-- The price of an order through its pointer.
unfoldable pub price_of : Dict Order → String → ℕ
price_of orders id = elim (lookup id orders) [ none ↦ 0 | some o ↦ o.price ]

-- A rest of a limit order goes to its side's book, which is then sorted: bids from the highest price
-- down, asks from the lowest up.
unfoldable pub rest_on_book : Matched → Keeper
unfolding price_of
rest_on_book m =
    let k = m.keeper in
    let o = m.order in
    if slt 0 o.remaining_qty && is_limit o.order_type
    then (if is_buy o.side
        then record k {
          buy_book =
              insert o.pair_id
                (sort_slice (λ i j. slt (price_of k.orders j) (price_of k.orders i))
                  (book_of k.buy_book o.pair_id ++ o.id ∷ []))
                k.buy_book;
        }
        else record k {
          sell_book =
              insert o.pair_id
                (sort_slice (λ i j. slt (price_of k.orders i) (price_of k.orders j))
                  (book_of k.sell_book o.pair_id ++ o.id ∷ []))
                k.sell_book;
        })
    else k

-- The state in which matching starts: the funds are locked and the order is stored.
unfoldable pub opened_order : Request → ExchangeWallet → TradingPair → Time → Keeper → Keeper
unfolding lock_denom lock_amount new_order
opened_order r w pair now k =
    let o = new_order r w (add64 k.order_seq 1) now in
    record k {
      wallets =
          insert r.wallet_id
            (lock (lock_denom r.side pair) (lock_amount r.side r.price r.quantity) w) k.wallets;
      order_seq = add64 k.order_seq 1;
      orders = insert o.id o k.orders;
    }

-- PlaceOrder after its checks.
unfoldable pub lock_and_match :
    Request
    → ExchangeWallet
    → TradingPair
    → Time
    → String
    → Keeper
    → Option (Keeper × Result Error (Order × List Trade))
unfolding opened_order rest_on_book
lock_and_match r w pair now today k =
    if slt (available (lock_denom r.side pair) w) (lock_amount r.side r.price r.quantity)
    then some (k, err insufficient_balance)
    else Option.map (λ m. (rest_on_book m, ok (m.order, m.trades)))
        (match_order (new_order r w (add64 k.order_seq 1) now) pair r.block_height now today
          (opened_order r w pair now k))

unfoldable pub place_order :
    Request → Time → String → Keeper → Option (Keeper × Result Error (Order × List Trade))
unfolding checked lock_and_match
place_order r now today k = elim (checked r k) [
  | err e ↦ some (k, err e)
  | ok (w, pair) ↦
      let (k', refused) = check_daily_limit w r.price r.quantity today k in
      elim refused [ some e ↦ some (k', err e) | none ↦ lock_and_match r w pair now today k' ]
]

-- removeFromBook: the first entry of the order goes. (A book without the order is written as it
-- was.)
unfoldable pub erase_first : String → List String → List String
erase_first id [] = []
erase_first id (j ∷ b) = if str_eq j id then b else j ∷ erase_first id b

unfoldable pub remove_from_book : Order → Keeper → Keeper
unfolding erase_first
remove_from_book o k =
    if is_buy o.side
    then record k { buy_book = modify (erase_first o.id) o.pair_id k.buy_book }
    else record k { sell_book = modify (erase_first o.id) o.pair_id k.sell_book }

-- CancelOrder once its checks have passed: the lock of what remains is released, the order is
-- marked and leaves the book.
unfoldable pub cancel_checked :
    String → Order → Time → Keeper → Option (Keeper × Result Error (Unit {0}))
unfolding remove_from_book
cancel_checked id o now k = elim (lookup o.wallet_id k.wallets) [
  | none ↦ none
  | some w ↦ elim (lookup o.pair_id k.pairs) [
    | none ↦ none
    | some pair ↦
        let o' = record o { status = OrderStatus.cancelled; updated_at = now } in
        some (
          remove_from_book o' (record k {
            wallets =
                insert o.wallet_id
                  (unlock (lock_denom o.side pair) (lock_amount o.side o.price o.remaining_qty) w)
                  k.wallets;
            orders = insert id o' k.orders;
          }),
          ok tt,
        )
  ]
]

abbrev pub is_filled : OrderStatus → Bool
is_filled OrderStatus.filled = true
is_filled _ = false

abbrev pub is_cancelled : OrderStatus → Bool
is_cancelled OrderStatus.cancelled = true
is_cancelled _ = false

unfoldable pub cancel_order :
    String → String → Time → Keeper → Option (Keeper × Result Error (Unit {0}))
unfolding cancel_checked
cancel_order id wallet_id now k = elim (lookup id k.orders) [
  | none ↦ some (k, err order_not_found)
  | some o ↦
      if str_eq o.wallet_id wallet_id
      then (if is_filled o.status
          then some (k, err order_filled)
          else if is_cancelled o.status
          then some (k, err order_cancelled)
          else cancel_checked id o now k)
      else some (k, err unauthorized)
]
