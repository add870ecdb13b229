-- ===== src/Exchange/Matching.antt =====
-- matchOrder and settleTrade of x/exchange/keeper/keeper.go. `none` is a nil dereference. The
-- readings of the clock in one call are taken as one.
pub mod Runs
pub mod Fills
pub mod Books
pub mod Walk
pub mod Kept
pub mod Sorted
pub mod Conservation
use mathlib.Core.Option
use ftg_chain.Base.{
  ℕ, Bool, true, false, ◌&&◌, Option, none, some, List, [], ◌∷◌, ◌++◌, String, str_eq, ◌==◌,
  if◌then◌else◌,
}
use ftg_chain.Base.Word.{add64, sub64, mul64, div64, slt}
use ftg_chain.Base.Dict.{Dict, lookup, insert, modify}
use ftg_chain.Base.Sprintf.{sprintf}
use ftg_chain.Base.Time.{Time}
use ftg_chain.Exchange.Types.{
  Keeper, ExchangeWallet, TradingPair, Order, OrderSide, OrderStatus, opened, partial, filled,
  cancelled, expired, Trade, is_buy, is_limit,
}
use ftg_chain.Exchange.Wallets.{credit, debit, unlock}
use ftg_chain.Exchange.Limits.{quote_value, update_daily_limit}

unfoldable pub trade_id : ℕ → String
unfolding sprintf
trade_id = sprintf "FTG-TRD-" 8

-- The writes of settleTrade to the two wallets, in the order of the source.
unfoldable pub settle_wallets : Trade → TradingPair → Dict ExchangeWallet → Dict ExchangeWallet
settle_wallets t pair ws =
    let quote = quote_value t.price t.quantity in
    if is_buy t.side
    then modify (debit pair.quote_denom t.taker_fee) t.taker_wallet (
        modify (credit pair.base_denom t.quantity) t.taker_wallet (
          modify (debit pair.quote_denom quote) t.taker_wallet (
            modify (unlock pair.quote_denom quote) t.taker_wallet (
              modify (credit pair.quote_denom (sub64 quote t.maker_fee)) t.maker_wallet (
                modify (debit pair.base_denom t.quantity) t.maker_wallet
                  (modify (unlock pair.base_denom t.quantity) t.maker_wallet ws))))))
    else modify (debit pair.quote_denom t.maker_fee) t.maker_wallet (
        modify (credit pair.quote_denom (sub64 quote t.taker_fee)) t.taker_wallet (
          modify (debit pair.base_denom t.quantity) t.taker_wallet (
            modify (unlock pair.base_denom t.quantity) t.taker_wallet (
              modify (credit pair.base_denom t.quantity) t.maker_wallet (
                modify (debit pair.quote_denom quote) t.maker_wallet
                  (modify (unlock pair.quote_denom quote) t.maker_wallet ws))))))

unfoldable pub settle_trade : Trade → TradingPair → String → Keeper → Option Keeper
settle_trade t pair today k = elim (lookup t.maker_wallet k.wallets) [
  | none ↦ none
  | some maker ↦ elim (lookup t.taker_wallet k.wallets) [
    | none ↦ none
    | some taker ↦
        let quote = quote_value t.price t.quantity in
        some (
          update_daily_limit taker.user_id quote today (
            update_daily_limit maker.user_id quote today
              (record k { wallets = settle_wallets t pair k.wallets })))
  ]
]

-- A limit order takes no maker beyond its price.
unfoldable pub is_beyond : Order → Order → Bool
is_beyond order maker =
    if is_buy order.side
    then is_limit order.order_type && slt order.price maker.price
    else is_limit order.order_type && slt maker.price order.price

-- fillQty: the smaller of the two remainders.
unfoldable pub fill_qty : Order → Order → ℕ
fill_qty order maker =
    if slt maker.remaining_qty order.remaining_qty then maker.remaining_qty else order.remaining_qty

-- (fillQty * executionPrice * fee) / (1_000_000 * 10_000)
unfoldable pub trade_fee : ℕ → ℕ → ℕ → ℕ
unfolding mul64 div64
trade_fee qty price bps = div64 (mul64 (mul64 qty price) bps) 10000000000

unfoldable pub new_trade : Order → Order → TradingPair → ℕ → ℕ → Time → Trade
new_trade order maker pair seq block_height now =
    let qty = fill_qty order maker in
    record {
      id = trade_id seq;
      pair_id = order.pair_id;
      maker_order = maker.id;
      taker_order = order.id;
      maker_wallet = maker.wallet_id;
      taker_wallet = order.wallet_id;
      side = order.side;
      price = maker.price;
      quantity = qty;
      maker_fee = trade_fee qty maker.price pair.maker_fee;
      taker_fee = trade_fee qty maker.price pair.taker_fee;
      executed_at = now;
      block_height = block_height;
    }

-- FilledQty += qty; RemainingQty -= qty
unfoldable pub fill : ℕ → Order → Order
fill qty o = record o {
  filled_qty = add64 o.filled_qty qty;
  remaining_qty = sub64 o.remaining_qty qty;
}

-- The maker after a fill, with its new status.
unfoldable pub filled_maker : ℕ → Time → Order → Order
filled_maker qty now maker =
    let m = fill qty maker in
    record m { status = if m.remaining_qty == 0 then filled else partial; updated_at = now }

-- One fill: the trade is recorded and settled, then the maker is written.
unfoldable pub execute_fill :
    TradingPair → ℕ → Time → String → String → Order → Order → Keeper → Option Keeper
execute_fill pair block_height now today maker_id maker order k =
    let trade = new_trade order maker pair (add64 k.trade_seq 1) block_height now in
    elim (settle_trade trade pair today
      (record k { trade_seq = add64 k.trade_seq 1; trades = k.trades ++ trade ∷ [] })) [
        | none ↦ none
        | some k' ↦ some (record k' {
          orders = insert maker_id (filled_maker (fill_qty order maker) now maker) k'.orders;
        })
      ]

-- What the loop of matchOrder has done: the state, the taker's order, the trades and what is left of
-- the opposite book.
pub record Matched : Type 0 where
  pub keeper : Keeper
  pub order : Order
  pub trades : List Trade
  pub book : List String

abbrev pub kept : String → Matched → Matched
kept id m = record m { book = id ∷ m.book }

-- A maker that is filled leaves the book.
abbrev pub traded : String → Order → Trade → Matched → Matched
traded id maker t m = record m {
  trades = t ∷ m.trades;
  book = if maker.remaining_qty == 0 then m.book else id ∷ m.book;
}

abbrev pub stopped : Keeper → Order → List String → Matched
stopped k order book = record { keeper = k; order = order; trades = []; book = book }

module _ (pair : TradingPair) (block_height : ℕ) (now : Time) (today : String) where
  -- The loop, over the part of the book from the current index on.
  unfoldable pub match_from : List String → Keeper → Order → Option Matched
  match_from [] k order = some (stopped k order [])
  match_from (id ∷ rest) k order = elim (slt 0 order.remaining_qty) [
    | false ↦ some (stopped k order (id ∷ rest))
    | true ↦ elim (lookup id k.orders) [
      | none ↦ none
      | some maker ↦ elim (is_beyond order maker) [
        | true ↦ some (stopped k order (id ∷ rest))
        | false ↦ elim (str_eq maker.wallet_id order.wallet_id) [
          | true ↦ Option.map (kept id) (match_from rest k order)
          | false ↦ elim (execute_fill pair block_height now today id maker order k) [
            | none ↦ none
            | some k' ↦
                let qty = fill_qty order maker in
                Option.map
                  (traded id (fill qty maker)
                    (new_trade order maker pair (add64 k.trade_seq 1) block_height now))
                  (match_from rest k' (fill qty order))
          ]
        ]
      ]
    ]
  ]

-- The status of the taker's order after the loop.
unfoldable pub taker_status : Order → OrderStatus
taker_status o =
    if o.remaining_qty == 0 then filled else if slt 0 o.filled_qty then partial else o.status

abbrev pub book_of : Dict (List String) → String → List String
book_of books pair_id = elim (lookup pair_id books) [ none ↦ [] | some b ↦ b ]

-- After the loop: the order is written, and what is left of the book.
unfoldable pub close_match : Time → Matched → Matched
close_match now m =
    let order' = record m.order { status = taker_status m.order; updated_at = now } in
    let k = record m.keeper { orders = insert order'.id order' m.keeper.orders } in
    record m {
      order = order';
      keeper =
          if is_buy order'.side
          then record k { sell_book = insert order'.pair_id m.book k.sell_book }
          else record k { buy_book = insert order'.pair_id m.book k.buy_book };
    }

-- matchOrder
unfoldable pub match_order : Order → TradingPair → ℕ → Time → String → Keeper → Option Matched
unfolding match_from close_match
match_order order pair block_height now today k = Option.map (close_match now) (
    match_from pair block_height now today
      (if is_buy order.side
        then book_of k.sell_book order.pair_id
        else book_of k.buy_book order.pair_id)
      k order)
