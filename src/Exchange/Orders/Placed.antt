-- ===== src/Exchange/Orders/Placed.antt =====
-- What a call of PlaceOrder that succeeds has gone through.
use ftg_chain.Base.{
  ℕ, ◌≡◌, inl, inr, true, false, none, some, List, String, arith, Bool-cases, Option-cases,
  if◌then◌else◌,
}
use ftg_chain.Base.Word.{add64, slt, sle}
use ftg_chain.Base.Dict.{lookup}
use ftg_chain.Base.Time.{Time}
use ftg_chain.Base.Result.{ok, err, Result-cases}
use ftg_chain.Exchange.Types.{
  Keeper, ExchangeWallet, TradingPair, Order, Trade, kyc_tier_basic, is_buy, is_limit,
}
use ftg_chain.Exchange.Wallets.{available}
use ftg_chain.Exchange.Limits.{check_daily_limit}
use ftg_chain.Exchange.Matching.{Matched, match_order, match_from, close_match, book_of}
use ftg_chain.Exchange.Matching.Runs.{Runs, Runs-match_from}
use ftg_chain.Exchange.Orders.{
  Request, checked, lock_denom, lock_amount, new_order, rest_on_book, opened_order, lock_and_match,
  place_order,
}

-- The checks have passed for this wallet and this pair.
pub record Checked (r : Request) (k : Keeper) (w : ExchangeWallet) (pair : TradingPair)
    : Type 0 where
  pub wallet : lookup r.wallet_id k.wallets ≡ some w
  pub active : w.active ≡ true
  pub tier : slt w.kyc_tier kyc_tier_basic ≡ false
  pub enabled : k.config.trading_enabled ≡ true
  pub listed : lookup r.pair_id k.pairs ≡ some pair
  pub tradable : pair.active ≡ true
  pub large : slt r.quantity pair.min_order_size ≡ false
  pub priced : is_limit r.order_type ≡ true → sle r.price 0 ≡ false

pub checked-Checked :
    (r : Request) (k : Keeper) (w : ExchangeWallet) (pair : TradingPair)
    → checked r k ≡ ok (w, pair)
    → Checked r k w pair
unfolding checked
checked-Checked r k w pair e = ground arith

abbrev pub opposite_book : Order → Keeper → List String
opposite_book o k =
    if is_buy o.side then book_of k.sell_book o.pair_id else book_of k.buy_book o.pair_id

pub match_order-Runs :
    (o : Order) (pair : TradingPair) (h : ℕ) (now : Time) (today : String) (k : Keeper)
    {m : Matched}
    → match_order o pair h now today k ≡ some m
    → (m' : Matched) × Runs pair h now today (opposite_book o k) k o m' × (m ≡ close_match now m')
unfolding match_order
match_order-Runs o pair h now today k e =
    elim (Option-cases (match_from pair h now today (opposite_book o k) k o)) [
      | inl fault ↦ let f : none ≡ some _ = rw (fault, match_order) at e in absurd (cc)
      | inr (m', run) ↦ (
        m',
        Runs-match_from pair h now today (opposite_book o k) k o run,
        same (rw (run, match_order) at e),
      )
    ]
  where
    same : {a b : Matched} → some a ≡ some b → b ≡ a
    same e = cc

-- The state after the daily-limit check: only the entries of the daily limits may differ.
abbrev pub limits_checked : Request → ExchangeWallet → String → Keeper → Keeper
limits_checked r w today k = record k {
  daily_limits = (check_daily_limit w r.price r.quantity today k).0.daily_limits;
}

pub check_daily_limit-limits_checked :
    (r : Request) (w : ExchangeWallet) (today : String) (k : Keeper)
    → (check_daily_limit w r.price r.quantity today k).0 ≡ limits_checked r w today k
unfolding check_daily_limit
check_daily_limit-limits_checked r w today k = ground arith

-- The order as PlaceOrder makes it, and the state in which its matching starts.
abbrev pub start_order : Request → ExchangeWallet → Time → Keeper → Order
start_order r w now k = new_order r w (add64 k.order_seq 1) now

abbrev pub start_state : Request → ExchangeWallet → TradingPair → Time → String → Keeper → Keeper
start_state r w pair now today k = opened_order r w pair now (limits_checked r w today k)

-- A call that succeeds has passed the checks, locked the funds and run the loop.
pub record Placed (r : Request) (now : Time) (today : String) (k k' : Keeper) (o : Order)
    (ts : List Trade) : Type 0 where
  pub wallet : ExchangeWallet
  pub pair : TradingPair
  pub matched : Matched
  pub checks : Checked r k wallet pair
  pub funds :
      slt (available (lock_denom r.side pair) wallet) (lock_amount r.side r.price r.quantity)
      ≡ false
  pub runs :
      Runs pair r.block_height now today
        (opposite_book (start_order r wallet now k) (start_state r wallet pair now today k))
        (start_state r wallet pair now today k)
        (start_order r wallet now k)
        matched
  pub state : k' ≡ rest_on_book (close_match now matched)
  pub order : o ≡ (close_match now matched).order
  pub traded : ts ≡ matched.trades

lock_and_match-Runs :
    (r : Request) (w : ExchangeWallet) (pair : TradingPair) (now : Time) (today : String)
    (k k' : Keeper) (o : Order) (ts : List Trade)
    → lock_and_match r w pair now today k ≡ some (k', ok (o, ts))
    → (slt (available (lock_denom r.side pair) w) (lock_amount r.side r.price r.quantity) ≡ false)
      × ((m : Matched) × (match_order
              (start_order r w now k)
              pair
              r.block_height
              now
              today
              (opened_order r w pair now k)
            ≡ some m)
          × (k' ≡ rest_on_book m)
          × (o ≡ m.order)
          × (ts ≡ m.trades))
unfolding lock_and_match
lock_and_match-Runs r w pair now today k k' o ts e =
    elim (Bool-cases
      (slt (available (lock_denom r.side pair) w) (lock_amount r.side r.price r.quantity))) [
        | inl short ↦ absurd (ground (arith, short))
        | inr funded ↦
            elim (Option-cases (
              match_order (start_order r w now k) pair r.block_height now today
                (opened_order r w pair now k))) [
                  | inl fault ↦ absurd (ground (arith, funded, fault))
                  | inr (m, run) ↦ (
                    funded,
                    (
                      m,
                      run,
                      ground (arith, funded, run),
                      ground (arith, funded, run),
                      ground (arith, funded, run),
                    ),
                  )
                ]
      ]

place_order-steps :
    (r : Request) (now : Time) (today : String) (k k' : Keeper) (o : Order) (ts : List Trade)
    → place_order r now today k ≡ some (k', ok (o, ts))
    → (w : ExchangeWallet) × (pair : TradingPair) × (checked r k ≡ ok (w, pair))
      × (lock_and_match r w pair now today (check_daily_limit w r.price r.quantity today k).0
          ≡ some (k', ok (o, ts)))
unfolding place_order
place_order-steps r now today k k' o ts e = elim (Result-cases (checked r k)) [
  | inl (bad, c) ↦
      let f : some (k, err bad) ≡ some (k', ok (o, ts)) = rw (c, place_order) at e in absurd (cc)
  | inr ((w, pair), c) ↦ elim (Option-cases (check_daily_limit w r.price r.quantity today k).1) [
    | inr (bad, d) ↦
        let f : some ((check_daily_limit w r.price r.quantity today k).0, err bad)
            ≡ some (k', ok (o, ts)) =
          rw (d, place_order) at (rw (c, place_order) at e) in
        absurd (cc)
    | inl passed ↦ (w, pair, c, rw (passed, place_order) at (rw (c, place_order) at e))
  ]
]

pub place_order-Placed :
    (r : Request) (now : Time) (today : String) (k k' : Keeper) (o : Order) (ts : List Trade)
    → place_order r now today k ≡ some (k', ok (o, ts))
    → Placed r now today k k' o ts
unfolding close_match
place_order-Placed r now today k k' o ts e =
    let (w, pair, c, l) = place_order-steps r now today k k' o ts e in
    let l' = rw (check_daily_limit-limits_checked r w today k) at l in
    let (funded, (m, run, st, ord, tr)) =
      lock_and_match-Runs r w pair now today (limits_checked r w today k) k' o ts l' in
    let (m', runs, closed) =
      match_order-Runs (start_order r w now k) pair r.block_height now today
        (start_state r w pair now today k) run in
    record {
      wallet = w;
      pair = pair;
      matched = m';
      checks = checked-Checked r k w pair c;
      funds = funded;
      runs = runs;
      state = rw closed at st;
      order = rw closed at ord;
      traded = rw closed at tr;
    }
