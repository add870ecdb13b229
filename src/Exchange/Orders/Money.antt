-- ===== src/Exchange/Orders/Money.antt =====
-- What PlaceOrder does to money, to the order and to the trades.
use ftg_chain.Base.{◌≡◌, refl, sym, ap, ◌∙◌, some, List, String, arith}
use ftg_chain.Base.Word.{add64}
use ftg_chain.Base.Dict.{lookup, sum_by-insert_keep}
use ftg_chain.Base.Lists.{All, All-mono}
use ftg_chain.Base.Time.{Time}
use ftg_chain.Base.Result.{ok}
use ftg_chain.Exchange.Types.{Keeper, ExchangeWallet, TradingPair, Order, Trade}
use ftg_chain.Exchange.Wallets.{lock}
use ftg_chain.Exchange.Wallets.Totals.{balance, total}
use ftg_chain.Exchange.Matching.{Matched, close_match}
use ftg_chain.Exchange.Matching.Fills.{
  Allowed, SameOrder, with_all_fees, with_quantities, Runs-total, Runs-SameOrder, Runs-quantities,
  Runs-Allowed,
}
use ftg_chain.Exchange.Orders.{
  Request, place_order, rest_on_book, opened_order, new_order, lock_denom, lock_amount,
}
use ftg_chain.Exchange.Orders.Placed.{place_order-Placed, start_order, start_state}

-- Closing a match and resting the order touch no wallet.
after-wallets :
    (now : Time) (m : Matched) → (rest_on_book (close_match now m)).wallets ≡ m.keeper.wallets
unfolding rest_on_book close_match
after-wallets now m = ground arith

-- Locking moves no balance.
start-total :
    (d : String) (r : Request) (w : ExchangeWallet) (pair : TradingPair) (now : Time)
    (today : String) (k : Keeper)
    → lookup r.wallet_id k.wallets ≡ some w
    → total d (start_state r w pair now today k).wallets ≡ total d k.wallets
unfolding opened_order total lock
start-total d r w pair now today k found =
    sum_by-insert_keep (balance d) r.wallet_id
      (lock (lock_denom r.side pair) (lock_amount r.side r.price r.quantity) w) w k.wallets found
      refl

-- When PlaceOrder succeeds, in every denomination the balances of all wallets together, with the
-- maker and taker fees of the trades put back to the quote denomination, are what they were, as
-- int64: matching moves money between wallets, and takes only the fees out.
pub place_order-total :
    (d : String) (r : Request) (now : Time) (today : String) (k k' : Keeper) (o : Order)
    (ts : List Trade)
    → place_order r now today k ≡ some (k', ok (o, ts))
    → (pair : TradingPair) × (lookup r.pair_id k.pairs ≡ some pair)
      × (with_all_fees d pair ts (total d k'.wallets) ≡ total d k.wallets)
place_order-total d r now today k k' o ts e =
    let p = place_order-Placed r now today k k' o ts e in
    (
      p.pair,
      p.checks.listed,
      rw (p.traded, p.state, after-wallets now p.matched)
          (Runs-total p.pair r.block_height now today d p.runs
            ∙ start-total d r p.wallet p.pair now today k p.checks.wallet),
    )

order-close_match :
    (now : Time) (m : Matched)
    → SameOrder m.order (close_match now m).order
      × ((close_match now m).order.filled_qty ≡ m.order.filled_qty)
      × ((close_match now m).order.remaining_qty ≡ m.order.remaining_qty)
unfolding close_match
order-close_match now m = (
  record {
    id = refl;
    wallet_id = refl;
    pair_id = refl;
    side = refl;
    order_type = refl;
    price = refl;
    quantity = refl;
  },
  refl,
  refl,
)

-- When PlaceOrder succeeds, the order that it returns has the requested quantity as the sum of its
-- filled and its remaining amount, and the filled amount is the sum of the quantities of the trades
-- returned (both as int64).
pub place_order-quantities :
    (r : Request) (now : Time) (today : String) (k k' : Keeper) (o : Order) (ts : List Trade)
    → place_order r now today k ≡ some (k', ok (o, ts))
    → (o.filled_qty ≡ with_quantities ts 0)
      × (add64 o.filled_qty o.remaining_qty ≡ add64 0 r.quantity)
unfolding new_order
place_order-quantities r now today k k' o ts e =
    let p = place_order-Placed r now today k k' o ts e in
    let (same, f, q) = order-close_match now p.matched in
    let (filled, sum) = Runs-quantities p.pair r.block_height now today p.runs in
    (
      ap (λ x. x.filled_qty) p.order ∙ f ∙ rw p.traded filled,
      ap (λ x. add64 x.filled_qty x.remaining_qty) p.order ∙ rw (f, q) sum,
    )

SameOrder-trans : (a b c : Order) → SameOrder a b → SameOrder b c → SameOrder a c
SameOrder-trans a b c s t = record {
  id = t.id ∙ s.id;
  wallet_id = t.wallet_id ∙ s.wallet_id;
  pair_id = t.pair_id ∙ s.pair_id;
  side = t.side ∙ s.side;
  order_type = t.order_type ∙ s.order_type;
  price = t.price ∙ s.price;
  quantity = t.quantity ∙ s.quantity;
}

Allowed-SameOrder : (a b : Order) (t : Trade) → SameOrder a b → Allowed a t → Allowed b t
Allowed-SameOrder a b t s h = record {
  taker = h.taker ∙ sym s.wallet_id;
  others = rw s.wallet_id h.others;
  side = h.side ∙ sym s.side;
  price = rw (s.side, s.order_type, s.price) h.price;
}

-- When PlaceOrder succeeds, the order that it returns has the wallet, the side, the type and the
-- price of the request, and each trade that it
-- returns is with another wallet than the order's, on the order's side, and for a limit order at the
-- requested price or a better one.
pub place_order-Allowed :
    (r : Request) (now : Time) (today : String) (k k' : Keeper) (o : Order) (ts : List Trade)
    → place_order r now today k ≡ some (k', ok (o, ts))
    → (o.wallet_id ≡ r.wallet_id)
      × (o.side ≡ r.side)
      × (o.order_type ≡ r.order_type)
      × (o.price ≡ r.price)
      × All (Allowed o) ts
unfolding new_order
place_order-Allowed r now today k k' o ts e =
    let p = place_order-Placed r now today k k' o ts e in
    let start = start_order r p.wallet now k in
    let closed : Order = (close_match now p.matched).order in
    let (same, f, q) = order-close_match now p.matched in
    let s : SameOrder start closed =
      SameOrder-trans start p.matched.order closed
        (Runs-SameOrder p.pair r.block_height now today p.runs) same in
    let s' : SameOrder start o = rw p.order s in
    (
      s'.wallet_id,
      s'.side,
      s'.order_type,
      s'.price,
      rw p.traded (
          All-mono (Allowed start) (Allowed o) p.matched.trades
            (λ t h. Allowed-SameOrder start o t s' h)
            (Runs-Allowed p.pair r.block_height now today p.runs)),
    )
