-- ===== src/Exchange/Orders/Retiring.antt =====
-- What CancelOrder and PlaceOrder make of an order that is off the books.
use ftg_chain.Base.{
  subst, ◌≡◌, ◌≢◌, refl, sym, ap, ◌∙◌, inl, inr, Bool, true, not, some, some_eq, List, String,
  arith, Option-cases,
}
use ftg_chain.Base.Word.{add64}
use ftg_chain.Base.Dict.{lookup, insert, lookup-insert_ne}
use ftg_chain.Base.Time.{Time}
use ftg_chain.Base.Result.{Result, ok, err}
use ftg_chain.Exchange.Types.{
  Keeper, Order, Trade, TradingPair, ExchangeWallet, Error, order_cancelled, is_buy,
}
use ftg_chain.Exchange.Matching.{Matched, close_match}
use ftg_chain.Exchange.Matching.Books.{NotIn}
use ftg_chain.Exchange.Matching.Fills.{Runs-SameOrder}
use ftg_chain.Exchange.Matching.Kept.{Runs-frame, Runs-rest}
use ftg_chain.Exchange.Matching.Sorted.{NotIn-snoc, NotIn-sort_slice}
use ftg_chain.Exchange.Orders.{
  Request, place_order, cancel_order, cancel_checked, rest_on_book, opened_order, new_order,
  order_id,
}
use ftg_chain.Exchange.Orders.Sound.{side_book, side_book-same}
use ftg_chain.Exchange.Orders.Written.{
  write_book, write_book-keeps, each_book, close_match-write_book, rest_on_book-cases,
  rest_on_book-keeps,
}
use ftg_chain.Exchange.Orders.Placed.{
  Placed, place_order-Placed, opposite_book, start_order, start_state,
}
use ftg_chain.Exchange.Orders.Placing.{opposite_book-side_book}
use ftg_chain.Exchange.Orders.Cancelled.{
  as_cancelled, released, remove_from_book-each_book, cancelled-keeps, cancel_order-steps,
  cancel_order-refused,
}
use ftg_chain.Exchange.Orders.Cancelling.{NotIn-erase_first}
use ftg_chain.Exchange.Orders.Retired.{OffBooks, Retired, Retired-frame}
use ftg_chain.Exchange.Orders.Admitted.{place_order-err}

-- One book is written, without the order.
OffBooks-write_book :
    (id : String) (b : Bool) (p : String) (book : List String) (k : Keeper)
    → NotIn id book
    → OffBooks id k
    → OffBooks id (write_book b p book k)
OffBooks-write_book id b p book k out off =
    each_book (λ b p book. NotIn id book) b p book k out (λ b p differ. off b p)

OffBooks-same :
    (id : String) (k k' : Keeper)
    → k'.buy_book ≡ k.buy_book
    → k'.sell_book ≡ k.sell_book
    → OffBooks id k
    → OffBooks id k'
OffBooks-same id k k' bb sb off b p =
    subst (NotIn id) (sym (side_book-same k k' bb sb b p)) (off b p)

pub cancel_order-err :
    (id wallet_id : String) (now : Time) (k k' : Keeper) (bad : Error)
    → cancel_order id wallet_id now k ≡ some (k', err bad)
    → k' ≡ k
unfolding cancel_order cancel_checked
cancel_order-err id wallet_id now k k' bad e = elim (Option-cases (lookup id k.orders)) [
  | inl missing ↦ ground (arith, missing)
  | inr (o, found) ↦ elim (Option-cases (lookup o.wallet_id k.wallets)) [
    | inl missing ↦ ground (arith, found, missing)
    | inr (w, owner) ↦ elim (Option-cases (lookup o.pair_id k.pairs)) [
      | inl missing ↦ ground (arith, found, owner, missing)
      | inr (pair, of_pair) ↦ ground (arith, found, owner, of_pair)
    ]
  ]
]

-- A cancellation that succeeds is of another order.
cancel_order-other :
    (id j wallet_id : String) (o : Order) (now : Time) (k k' : Keeper)
    → Retired id o k
    → cancel_order j wallet_id now k ≡ some (k', ok tt)
    → j ≢ id
cancel_order-other id j wallet_id o now k k' v e same =
    let (x, w, pair, found, own, owner, of_pair, state) =
      cancel_order-steps j wallet_id now k k' e in
    let it : x ≡ o = some_eq (sym found ∙ ap (λ i. lookup i k.orders) same ∙ v.stored) in
    let refused =
      cancel_order-refused j wallet_id now k x found own (ap (λ y. y.status) it ∙ v.gone) in
    let clash : some (k', ok tt) ≡ some (k, err order_cancelled) = sym e ∙ refused in absurd (cc)

pub cancel_order-Retired :
    (id j wallet_id : String) (o : Order) (now : Time) (k : Keeper)
    (x : Keeper × Result Error (Unit {0}))
    → cancel_order j wallet_id now k ≡ some x
    → Retired id o k
    → Retired id o x.0
cancel_order-Retired id j wallet_id o now k (k', err bad) e v =
    subst (Retired id o) (sym (cancel_order-err j wallet_id now k k' bad e)) v
cancel_order-Retired id j wallet_id o now k (k', ok tt) e v =
    let (x, w, pair, found, own, owner, of_pair, state) =
      cancel_order-steps j wallet_id now k k' e in
    let ne = cancel_order-other id j wallet_id o now k k' v e in
    let r = released j x w pair now k in
    let c = as_cancelled now x in
    let (eo, ew, ep, ek, en) = cancelled-keeps j x w pair now k in
    let off = OffBooks-same id k r refl refl v.off in
    record {
      stored =
          ap (λ y. lookup id y.orders) state
          ∙ ap (λ d. lookup id d) eo
          ∙ lookup-insert_ne j id c k.orders ne
          ∙ v.stored;
      gone = v.gone;
      off =
          subst (λ y. OffBooks id y) (sym state)
            (remove_from_book-each_book (λ b p book. NotIn id book) c r
              (NotIn-erase_first r (is_buy c.side) c.pair_id id c.id
                (side_book (is_buy c.side) c.pair_id r) (off (is_buy c.side) c.pair_id))
              (λ b p differ. off b p));
    }

-- A new order that is another one.
rested-Retired :
    (id : String) (o : Order) (m : Matched)
    → m.order.id ≢ id
    → Retired id o m.keeper
    → Retired id o (rest_on_book m)
rested-Retired id o m ne v = record {
  stored = ap (λ d. lookup id d) (rest_on_book-keeps m).0 ∙ v.stored;
  gone = v.gone;
  off = elim (rest_on_book-cases m) [
    | inl same ↦ subst (λ y. OffBooks id y) (sym same) v.off
    | inr (left, (less, rests)) ↦
        subst (λ y. OffBooks id y) (sym rests)
          (OffBooks-write_book id (is_buy m.order.side) m.order.pair_id _ m.keeper
            (NotIn-sort_slice m.keeper true "" less id _ (
              NotIn-snoc m.keeper true "" id m.order.id _
                (v.off (is_buy m.order.side) m.order.pair_id) ne))
            v.off)
  ];
}

closed-id : (now : Time) (m : Matched) → (close_match now m).order.id ≡ m.order.id
unfolding close_match
closed-id now m = refl

closed-Retired :
    (id : String) (o : Order) (now : Time) (m : Matched)
    → m.order.id ≢ id
    → NotIn id m.book
    → Retired id o m.keeper
    → Retired id o (close_match now m).keeper
closed-Retired id o now m ne out v =
    let c = (close_match now m).order in
    let r : Keeper = record m.keeper { orders = insert c.id c m.keeper.orders } in
    let ne' : c.id ≢ id = λ e. ne (sym (closed-id now m) ∙ e) in
    record {
      stored =
          ap (λ y. lookup id y.orders) (close_match-write_book now m)
          ∙ ap (λ d. lookup id d) (write_book-keeps (not (is_buy c.side)) c.pair_id m.book r).0
          ∙ lookup-insert_ne c.id id c m.keeper.orders ne'
          ∙ v.stored;
      gone = v.gone;
      off =
          subst (λ y. OffBooks id y) (sym (close_match-write_book now m))
            (OffBooks-write_book id (not (is_buy c.side)) c.pair_id m.book r out
              (OffBooks-same id m.keeper r refl refl v.off));
    }

-- Where the matching of a new order starts.
start-Retired :
    (id : String) (o : Order) (r : Request) (w : ExchangeWallet) (pair : TradingPair) (now : Time)
    (today : String) (k : Keeper)
    → order_id (add64 k.order_seq 1) ≢ id
    → Retired id o k
    → ((start_order r w now k).id ≢ id) × Retired id o (start_state r w pair now today k)
unfolding opened_order new_order
start-Retired id o r w pair now today k ne v = (
  ne,
  record {
    stored =
        lookup-insert_ne (order_id (add64 k.order_seq 1)) id (start_order r w now k) k.orders ne
        ∙ v.stored;
    gone = v.gone;
    off = OffBooks-same id k (start_state r w pair now today k) refl refl v.off;
  },
)

Placed-Retired :
    (id : String) (o : Order) (r : Request) (now : Time) (today : String) (k k' : Keeper)
    (x : Order) (ts : List Trade)
    → order_id (add64 k.order_seq 1) ≢ id
    → Placed r now today k k' x ts
    → Retired id o k
    → Retired id o k'
Placed-Retired id o r now today k k' x ts ne p v =
    let st = start_state r p.wallet p.pair now today k in
    let o₀ = start_order r p.wallet now k in
    let (ne₀, v₀) = start-Retired id o r p.wallet p.pair now today k ne v in
    let (orders, wallets, kept) = Runs-frame p.pair r.block_height now today p.runs in
    let (bb, sb, ps, ks, n) = Runs-rest p.pair r.block_height now today p.runs in
    let s = Runs-SameOrder p.pair r.block_height now today p.runs in
    let out : NotIn id (opposite_book o₀ st) =
      subst (NotIn id) (sym (opposite_book-side_book o₀ st))
        (v₀.off (not (is_buy o₀.side)) o₀.pair_id) in
    let m = p.matched in
    let walked : Retired id o m.keeper = record {
      stored = orders id out ∙ v₀.stored;
      gone = v.gone;
      off = OffBooks-same id st m.keeper bb sb v₀.off;
    } in
    let other : m.order.id ≢ id = λ e. ne₀ (sym s.id ∙ e) in
    subst (Retired id o) (sym p.state) (
      rested-Retired id o (close_match now m) (λ e. other (sym (closed-id now m) ∙ e))
        (closed-Retired id o now m other (kept id out) walked))

-- The same of PlaceOrder, whose new order is another one.
pub place_order-Retired :
    (id : String) (o : Order) (r : Request) (now : Time) (today : String) (k : Keeper)
    (x : Keeper × Result Error (Order × List Trade))
    → order_id (add64 k.order_seq 1) ≢ id
    → place_order r now today k ≡ some x
    → Retired id o k
    → Retired id o x.0
place_order-Retired id o r now today k (k', err bad) ne e v =
    subst (Retired id o) (sym (place_order-err r now today k k' bad e))
      (Retired-frame id o k (record k { daily_limits = k'.daily_limits }) (refl, refl, refl) v)
place_order-Retired id o r now today k (k', ok (x, ts)) ne e v =
    Placed-Retired id o r now today k k' x ts ne (place_order-Placed r now today k k' x ts e) v
