-- ===== src/Exchange/Matching/Fills.antt =====
-- What one fill does to the state, and what a run of fills does to the taker's order.
use ftg_chain.Base.{
  ℕ, ◌≤◌, ◌≡◌, ◌≢◌, ◌⊎◌, refl, ap, ◌∙◌, inl, inr, true, false, some, List, [], ◌∷◌, ◌++◌, String,
  arith, Option-cases, ne_of_eq_false,
}
use ftg_chain.Base.Word.{add64, sub64, biased}
use ftg_chain.Base.Dict.{lookup, insert}
use ftg_chain.Base.Lists.{All, All-mono}
use ftg_chain.Base.Time.{Time}
use ftg_chain.Exchange.Types.{Keeper, TradingPair, Order, Trade, is_buy, is_limit}
use ftg_chain.Exchange.Wallets.Totals.{total, present}
use ftg_chain.Exchange.Limits.{update_daily_limit}
use ftg_chain.Exchange.Matching.{
  settle_wallets, settle_trade, is_beyond, fill_qty, new_trade, fill, filled_maker, execute_fill,
  Matched,
}
use ftg_chain.Exchange.Matching.Runs.{
  Runs, trade_of, at_end, taker_filled, price_reached, own_order, trades,
}
use ftg_chain.Exchange.Matching.Conservation.{with_fees, settle_wallets-total}

-- The effect of one fill on the parts of the state that matching reads.
pub record Filled (pair : TradingPair) (now : Time) (maker_id : String) (maker order : Order)
    (t : Trade) (k k' : Keeper) : Type 0 where
  pub maker_present : present maker.wallet_id k.wallets ≡ true
  pub taker_present : present order.wallet_id k.wallets ≡ true
  pub wallets : k'.wallets ≡ settle_wallets t pair k.wallets
  pub orders : k'.orders ≡ insert maker_id (filled_maker (fill_qty order maker) now maker) k.orders
  pub recorded : k'.trades ≡ k.trades ++ t ∷ []
  pub numbered : k'.trade_seq ≡ add64 k.trade_seq 1

same_keeper : {k k' : Keeper} → some k ≡ some k' → k' ≡ k
same_keeper e = cc

module _ (pair : TradingPair) (block_height : ℕ) (now : Time) (today : String) where
  pub execute_fill-Filled :
      (maker_id : String) (maker order : Order) (k k' : Keeper)
      → execute_fill pair block_height now today maker_id maker order k ≡ some k'
      → Filled pair now maker_id maker order
          (trade_of pair block_height now today k order maker)
          k
          k'
  unfolding execute_fill settle_trade new_trade update_daily_limit
  execute_fill-Filled maker_id maker order k k' e =
      elim (Option-cases (lookup maker.wallet_id k.wallets)) [
        | inl gone ↦ absurd (ground (arith, gone))
        | inr (mw, em) ↦ elim (Option-cases (lookup order.wallet_id k.wallets)) [
          | inl gone ↦ absurd (ground (arith, em, gone))
          | inr (tw, et) ↦
              let f = same_keeper (rw (et, execute_fill) at (rw (em, execute_fill) at e)) in
              record {
                maker_present = rw em;
                taker_present = rw et;
                wallets = ap (λ q. q.wallets) f;
                orders = ap (λ q. q.orders) f;
                recorded = ap (λ q. q.trades) f;
                numbered = ap (λ q. q.trade_seq) f;
              }
        ]
      ]

-- The fees of a list of trades, put back to a total of the quote denomination.
abbrev pub with_all_fees : String → TradingPair → List Trade → ℕ → ℕ
with_all_fees d pair [] n = n
with_all_fees d pair (t ∷ ts) n = with_fees d pair t (with_all_fees d pair ts n)

-- The quantities of a list of trades, added to a word.
abbrev pub with_quantities : List Trade → ℕ → ℕ
with_quantities [] n = n
with_quantities (t ∷ ts) n = with_quantities ts (add64 n t.quantity)

-- A run changes the amounts and the status of the taker's order only.
pub record SameOrder (o o' : Order) : Type 0 where
  pub id : o'.id ≡ o.id
  pub wallet_id : o'.wallet_id ≡ o.wallet_id
  pub pair_id : o'.pair_id ≡ o.pair_id
  pub side : o'.side ≡ o.side
  pub order_type : o'.order_type ≡ o.order_type
  pub price : o'.price ≡ o.price
  pub quantity : o'.quantity ≡ o.quantity

-- A limit order buys at its price or below, and sells at its price or above, by the signed order of
-- words. Another order takes any price.
abbrev pub PriceAllowed : Order → Trade → Type 0
PriceAllowed o t =
    (is_limit o.order_type ≡ false)
    ⊎ (is_buy o.side ≡ true) × (biased t.price ≤ biased o.price)
    ⊎ (is_buy o.side ≡ false) × (biased o.price ≤ biased t.price)

-- A trade that the taker's order allows: with another wallet, on its side, at a price that it allows.
pub record Allowed (o : Order) (t : Trade) : Type 0 where
  pub taker : t.taker_wallet ≡ o.wallet_id
  pub others : t.maker_wallet ≢ o.wallet_id
  pub side : t.side ≡ o.side
  pub price : PriceAllowed o t

same_order : (o : Order) → SameOrder o o
same_order o = record {
  id = refl;
  wallet_id = refl;
  pair_id = refl;
  side = refl;
  order_type = refl;
  price = refl;
  quantity = refl;
}

shift : (f r q : ℕ) → add64 (add64 f q) (sub64 r q) ≡ add64 f r
unfolding add64 sub64
shift f r q = omega arith

module _ (pair : TradingPair) (block_height : ℕ) (now : Time) (today : String) where
  -- What a fill does to the totals.
  fill-total :
      (d id : String) (maker o : Order) (k k' : Keeper)
      → execute_fill pair block_height now today id maker o k ≡ some k'
      → with_fees d pair (trade_of pair block_height now today k o maker) (total d k'.wallets)
        ≡ total d k.wallets
  unfolding new_trade
  fill-total d id maker o k k' e =
      let f = execute_fill-Filled pair block_height now today id maker o k k' e in
      rw f.wallets (
        settle_wallets-total d (trade_of pair block_height now today k o maker) pair k.wallets
          f.maker_present f.taker_present)

  pub Runs-total :
      (d : String) {book : List String} {k : Keeper} {o : Order} {m : Matched}
      → Runs pair block_height now today book k o m
      → with_all_fees d pair m.trades (total d m.keeper.wallets) ≡ total d k.wallets
  Runs-total d (at_end k o) = refl
  Runs-total d (taker_filled book k o full) = refl
  Runs-total d (price_reached id rest k o maker found beyond) = refl
  Runs-total d (own_order id rest k o maker m found own r) = Runs-total d r
  Runs-total d (trades id rest k k' o maker m pos found within other done r) =
      ap (with_fees d pair (trade_of pair block_height now today k o maker)) (Runs-total d r)
      ∙ fill-total d id maker o k k' done

  pub Runs-SameOrder :
      {book : List String} {k : Keeper} {o : Order} {m : Matched}
      → Runs pair block_height now today book k o m
      → SameOrder o m.order
  unfolding fill
  Runs-SameOrder (at_end k o) = same_order o
  Runs-SameOrder (taker_filled book k o full) = same_order o
  Runs-SameOrder (price_reached id rest k o maker found beyond) = same_order o
  Runs-SameOrder (own_order id rest k o maker m found own r) = Runs-SameOrder r
  Runs-SameOrder (trades id rest k k' o maker m pos found within other done r) =
      let s = Runs-SameOrder r in
      record {
        id = s.id;
        wallet_id = s.wallet_id;
        pair_id = s.pair_id;
        side = s.side;
        order_type = s.order_type;
        price = s.price;
        quantity = s.quantity;
      }

  -- The order's filled amount grows by the quantities of the trades, and what it gains there it
  -- loses in its remainder.
  pub Runs-quantities :
      {book : List String} {k : Keeper} {o : Order} {m : Matched}
      → Runs pair block_height now today book k o m
      → (m.order.filled_qty ≡ with_quantities m.trades o.filled_qty)
        × (add64 m.order.filled_qty m.order.remaining_qty ≡ add64 o.filled_qty o.remaining_qty)
  unfolding fill new_trade
  Runs-quantities (at_end k o) = (refl, refl)
  Runs-quantities (taker_filled book k o full) = (refl, refl)
  Runs-quantities (price_reached id rest k o maker found beyond) = (refl, refl)
  Runs-quantities (own_order id rest k o maker m found own r) = Runs-quantities r
  Runs-quantities (trades id rest k k' o maker m pos found within other done r) =
      let q = Runs-quantities r in
      (q.0, q.1 ∙ shift o.filled_qty o.remaining_qty (fill_qty o maker))

  pub Runs-Allowed :
      {book : List String} {k : Keeper} {o : Order} {m : Matched}
      → Runs pair block_height now today book k o m
      → All (Allowed o) m.trades
  unfolding fill new_trade is_beyond
  Runs-Allowed (at_end k o) = tt
  Runs-Allowed (taker_filled book k o full) = tt
  Runs-Allowed (price_reached id rest k o maker found beyond) = tt
  Runs-Allowed (own_order id rest k o maker m found own r) = Runs-Allowed r
  Runs-Allowed (trades id rest k k' o maker m pos found within other done r) = (
    record {
      taker = refl;
      others = ne_of_eq_false maker.wallet_id o.wallet_id other;
      side = refl;
      price = ground (arith, within);
    },
    All-mono _ _ m.trades
        (λ t a. record { taker = a.taker; others = a.others; side = a.side; price = a.price })
        (Runs-Allowed r),
  )
