-- ===== src/Node/Trading.antt =====
-- The handlers of cmd/ftgd/rpc_exchange.go that change the exchange keeper: wallets and orders. The
-- readings of the clock that the keeper makes, and the node's height, are arguments; `none` is a
-- panic.
pub mod Kyc
pub mod Queries
pub mod Served
pub mod Unscreened
mod Tests
use Prim.Native.String.{◌++◌ as ◌<>◌}
use mathlib.Core.Option
use ftg_chain.Base.{ℕ, Option, none, some, List, String, str_eq, if◌then◌else◌}
use ftg_chain.Base.Lists.{length}
use ftg_chain.Base.Sprintf.{sprintf}
use ftg_chain.Base.Time.{Time}
use ftg_chain.Base.Result.{Result, ok, err}
use ftg_chain.Node.Http.{
  Body, Response, bad_request, failed, success, post, post_or_panic, answered,
}
use ftg_chain.Compliance.Types as ComplianceTypes
use ftg_chain.Exchange.Types.{
  Keeper, ExchangeWallet, Order, OrderSide, buy, sell, OrderType, limit, market, Trade, Error,
}
use ftg_chain.Exchange.Wallets.{create_wallet, deposit_to_wallet, withdraw_from_wallet}
use ftg_chain.Exchange.Orders as Orders
use ftg_chain.Exchange.Orders.{place_order, cancel_order}

-- ExchangeRPC, without the node.
pub record ExchangeRpc : Type 0 where
  pub exchange : Keeper
  pub kyc : ComplianceTypes.Keeper

-- The answer to what the exchange keeper returns, where `answer` makes the result to show.
unfoldable pub exchanged :
    {A B : Type 0}
    → ExchangeRpc
    → (A → B)
    → Keeper × Result Error A
    → ExchangeRpc × Response Error B
exchanged s answer (k, err e) = (record s { exchange = k }, failed e)
exchanged s answer (k, ok a) = (record s { exchange = k }, success (answer a))

-- The same, for a call that may dereference nil.
unfoldable pub exchanged_or_panic :
    {A B : Type 0}
    → ExchangeRpc
    → (A → B)
    → Option (Keeper × Result Error A)
    → Option (ExchangeRpc × Response Error B)
unfolding exchanged
exchanged_or_panic s answer none = none
exchanged_or_panic s answer (some x) = some (exchanged s answer x)

pub record CreateWalletRequest : Type 0 where
  pub user_id : String
  pub label : String

unfoldable pub handle_create_wallet :
    String
    → Body CreateWalletRequest
    → Time
    → ExchangeRpc
    → ExchangeRpc × Response Error ExchangeWallet
unfolding exchanged
handle_create_wallet method body t s =
    post method body
      (λ req s. exchanged s (λ w. w) (create_wallet req.user_id req.label t s.exchange)) s

-- DepositRequest and WithdrawRequest.
pub record MoneyRequest : Type 0 where
  pub wallet_id : String
  pub denom : String
  pub amount : ℕ

pub record MoneyAnswer : Type 0 where
  pub message : String
  pub wallet_id : String
  pub denom : String
  pub amount : ℕ

abbrev money_answer : String → MoneyRequest → MoneyAnswer
money_answer message req = record {
  message = message;
  wallet_id = req.wallet_id;
  denom = req.denom;
  amount = req.amount;
}

unfoldable pub handle_deposit :
    String → Body MoneyRequest → ExchangeRpc → ExchangeRpc × Response Error MoneyAnswer
unfolding exchanged
handle_deposit method body s =
    post method body
      (λ req s.
        exchanged s (λ _. money_answer "Deposit successful" req)
          (deposit_to_wallet req.wallet_id req.denom req.amount s.exchange))
      s

unfoldable pub handle_withdraw :
    String → Body MoneyRequest → ExchangeRpc → ExchangeRpc × Response Error MoneyAnswer
unfolding exchanged
handle_withdraw method body s =
    post method body
      (λ req s.
        exchanged s (λ _. money_answer "Withdrawal successful" req)
          (withdraw_from_wallet req.wallet_id req.denom req.amount s.exchange))
      s

pub record PlaceOrderRequest : Type 0 where
  pub wallet_id : String
  pub pair_id : String
  pub side : String
  pub order_type : String
  pub price : ℕ
  pub quantity : ℕ

pub record PlaceOrderAnswer : Type 0 where
  pub order : Order
  pub trades : List Trade
  pub message : String

-- The two `switch` statements over the texts of the request.
unfoldable pub order_side : String → Option OrderSide
order_side s = if str_eq s "buy" then some buy else if str_eq s "sell" then some sell else none

unfoldable pub order_type : String → Option OrderType
order_type s =
    if str_eq s "limit" then some limit else if str_eq s "market" then some market else none

unfoldable pub place_answer : Order × List Trade → PlaceOrderAnswer
unfolding sprintf
place_answer (order, trades) = record {
  order = order;
  trades = trades;
  message =
      "Order " <> (order.id <> (sprintf " placed. " 1 (length trades) <> " trade(s) executed."));
}

abbrev pub order_request : PlaceOrderRequest → OrderSide → OrderType → ℕ → Orders.Request
order_request req side kind height = record {
  wallet_id = req.wallet_id;
  pair_id = req.pair_id;
  side = side;
  order_type = kind;
  price = req.price;
  quantity = req.quantity;
  block_height = height;
}

-- handlePlaceOrder, once the body is read.
unfoldable pub place_requested :
    ℕ
    → Time
    → String
    → PlaceOrderRequest
    → ExchangeRpc
    → Option (ExchangeRpc × Response Error PlaceOrderAnswer)
unfolding order_side order_type exchanged_or_panic
place_requested height now today req s = elim (order_side req.side) [
  | none ↦ some (s, bad_request "side must be 'buy' or 'sell'")
  | some side ↦ elim (order_type req.order_type) [
    | none ↦ some (s, bad_request "order_type must be 'limit' or 'market'")
    | some kind ↦
        exchanged_or_panic s place_answer
          (place_order (order_request req side kind height) now today s.exchange)
  ]
]

unfoldable pub handle_place_order :
    String
    → Body PlaceOrderRequest
    → ℕ
    → Time
    → String
    → ExchangeRpc
    → Option (ExchangeRpc × Response Error PlaceOrderAnswer)
unfolding place_requested
handle_place_order method body height now today s =
    post_or_panic method body (place_requested height now today) s

pub record CancelOrderRequest : Type 0 where
  pub order_id : String
  pub wallet_id : String

pub record CancelOrderAnswer : Type 0 where
  pub message : String
  pub order_id : String

unfoldable pub handle_cancel_order :
    String
    → Body CancelOrderRequest
    → Time
    → ExchangeRpc
    → Option (ExchangeRpc × Response Error CancelOrderAnswer)
unfolding exchanged_or_panic
handle_cancel_order method body now s =
    post_or_panic method body
      (λ req s.
        exchanged_or_panic s (λ _. record { message = "Order cancelled"; order_id = req.order_id })
          (cancel_order req.order_id req.wallet_id now s.exchange))
      s
