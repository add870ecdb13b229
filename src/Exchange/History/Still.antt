-- ===== src/Exchange/History/Still.antt =====
-- What the calls of x/exchange/keeper/keeper.go that create no wallet do to the wallets.
use ftg_chain.Base.{
  ℕ, subst, ◌≡◌, refl, sym, ap, ◌∙◌, inl, inr, false, none, some, some_eq, List, String, arith,
  Bool-cases, Option-cases, eq_iff, str_eq,
}
use ftg_chain.Base.Dict.{Dict, lookup, insert, modify, lookup-insert, lookup-insert_ne}
use ftg_chain.Base.Time.{Time}
use ftg_chain.Base.Result.{Result, ok, err}
use ftg_chain.Exchange.Types.{Keeper, Order, Trade, TradingPair, ExchangeWallet, Error, is_buy}
use ftg_chain.Exchange.Wallets.{wallet_id, credit, debit, unlock, lock}
use ftg_chain.Exchange.Matching.{
  Matched, settle_wallets, settle_trade, execute_fill, new_trade, close_match,
}
use ftg_chain.Exchange.Matching.Runs.{Runs, at_end, taker_filled, price_reached, own_order, trades}
use ftg_chain.Exchange.Matching.Fills.{execute_fill-Filled}
use ftg_chain.Exchange.Orders.{
  Request, place_order, cancel_order, rest_on_book, opened_order, remove_from_book,
}
use ftg_chain.Exchange.Orders.Placed.{Placed, place_order-Placed, start_state}
use ftg_chain.Exchange.Orders.Admitted.{place_order-err}
use ftg_chain.Exchange.Orders.Cancelled.{
  as_cancelled, released, cancelled-keeps, cancel_order-steps,
}
use ftg_chain.Exchange.Orders.Retiring.{cancel_order-err}
use ftg_chain.Exchange.Limits.{update_daily_limit}

-- The wallet is there, and not active.
abbrev pub Inactive : String → Dict ExchangeWallet → Type 0
Inactive id ws = (w : ExchangeWallet) × (lookup id ws ≡ some w) × (w.active ≡ false)

-- What a call that creates no wallet does: the numbers that are free stay free, and no wallet is made
-- active.
pub record Still (k k' : Keeper) : Type 0 where
  pub seq : k'.wallet_seq ≡ k.wallet_seq
  pub free : (j : String) → lookup j k.wallets ≡ none → lookup j k'.wallets ≡ none
  pub inactive : (j : String) → Inactive j k.wallets → Inactive j k'.wallets

pub Still-same :
    (k k' : Keeper) → k'.wallet_seq ≡ k.wallet_seq → k'.wallets ≡ k.wallets → Still k k'
Still-same k k' n ws = record {
  seq = n;
  free = λ j e. ap (λ d. lookup j d) ws ∙ e;
  inactive = λ j (w, e, off). (w, ap (λ d. lookup j d) ws ∙ e, off);
}

Still-trans : (k k₁ k₂ : Keeper) → Still k k₁ → Still k₁ k₂ → Still k k₂
Still-trans k k₁ k₂ a b = record {
  seq = b.seq ∙ a.seq;
  free = λ j e. b.free j (a.free j e);
  inactive = λ j i. b.inactive j (a.inactive j i);
}

-- A wallet that is there is written, active only if it was.
pub Still-insert :
    (k k' : Keeper) (id : String) (w w' : ExchangeWallet)
    → lookup id k.wallets ≡ some w
    → (w.active ≡ false → w'.active ≡ false)
    → k'.wallet_seq ≡ k.wallet_seq
    → k'.wallets ≡ insert id w' k.wallets
    → Still k k'
Still-insert k k' id w w' found off n ws = record {
  seq = n;
  free = λ j e.
      ap (λ d. lookup j d) ws
      ∙ lookup-insert_ne id j w' k.wallets (λ s.
        let f : some w ≡ none = sym found ∙ ap (λ i. lookup i k.wallets) s ∙ e in absurd (cc))
      ∙ e;
  inactive = λ j (x, e, x_off). elim (Bool-cases (str_eq id j)) [
    | inl same ↦
        let s : id ≡ j = (eq_iff id j).0 same in
        let it : x ≡ w = some_eq (sym e ∙ ap (λ i. lookup i k.wallets) (sym s) ∙ found) in
        (
          w',
          ap (λ d. lookup j d) ws ∙ lookup-insert id j w' k.wallets ∙ rw same refl,
          off (ap (λ y. y.active) (sym it) ∙ x_off),
        )
    | inr other ↦ (x, ap (λ d. lookup j d) ws ∙ lookup-insert id j w' k.wallets ∙ rw other e, x_off)
  ];
}

-- A write through `modify` that leaves the mark of the wallet.
modified :
    (f : ExchangeWallet → ExchangeWallet)
    → ((w : ExchangeWallet) → (f w).active ≡ w.active)
    → (id : String) (k : Keeper) → Still k (record k { wallets = modify f id k.wallets })
unfolding modify
modified f same id k = elim (Option-cases (lookup id k.wallets)) [
  | inl missing ↦ Still-same k _ refl (rw (missing, modify) refl)
  | inr (w, found) ↦
      Still-insert k _ id w (f w) found (λ off. same w ∙ off) refl (rw (found, modify) refl)
]

-- A keeper with these wallets.
abbrev with_wallets : Keeper → Dict ExchangeWallet → Keeper
with_wallets k ws = record k { wallets = ws }

-- One more write to the wallets.
module _ (c : String) (n : ℕ) (id : String) (k : Keeper) (ws : Dict ExchangeWallet)
    (v : Still k (with_wallets k ws)) where
  credited : Still k (with_wallets k (modify (credit c n) id ws))
  unfolding credit
  credited = Still-trans k _ _ v (modified (credit c n) (λ w. refl) id (with_wallets k ws))

  debited : Still k (with_wallets k (modify (debit c n) id ws))
  unfolding debit
  debited = Still-trans k _ _ v (modified (debit c n) (λ w. refl) id (with_wallets k ws))

  unlocked : Still k (with_wallets k (modify (unlock c n) id ws))
  unfolding unlock
  unlocked = Still-trans k _ _ v (modified (unlock c n) (λ w. refl) id (with_wallets k ws))

-- Settling a trade.
settled :
    (t : Trade) (pair : TradingPair) (k : Keeper)
    → Still k (with_wallets k (settle_wallets t pair k.wallets))
unfolding settle_wallets
settled t pair k = elim (Bool-cases (is_buy t.side)) [
  | inl buys ↦ rw buys (
      debited _ _ t.taker_wallet k _ (
        credited _ _ t.taker_wallet k _ (
          debited _ _ t.taker_wallet k _ (
            unlocked _ _ t.taker_wallet k _ (
              credited _ _ t.maker_wallet k _ (
                debited _ _ t.maker_wallet k _
                  (unlocked _ _ t.maker_wallet k _ (Still-same k k refl refl))))))))
  | inr sells ↦ rw sells (
      debited _ _ t.maker_wallet k _ (
        credited _ _ t.taker_wallet k _ (
          debited _ _ t.taker_wallet k _ (
            unlocked _ _ t.taker_wallet k _ (
              credited _ _ t.maker_wallet k _ (
                debited _ _ t.maker_wallet k _
                  (unlocked _ _ t.maker_wallet k _ (Still-same k k refl refl))))))))
]

module _ (pair : TradingPair) (h : ℕ) (now : Time) (today : String) where
  execute_fill-wallet_seq :
      (id : String) (maker o : Order) (k k' : Keeper)
      → execute_fill pair h now today id maker o k ≡ some k'
      → k'.wallet_seq ≡ k.wallet_seq
  unfolding execute_fill settle_trade new_trade update_daily_limit
  execute_fill-wallet_seq id maker o k k' e =
      elim (Option-cases (lookup maker.wallet_id k.wallets)) [
        | inl gone ↦ absurd (let f : none ≡ some k' = rw (gone, execute_fill) at e in cc)
        | inr (mw, em) ↦ elim (Option-cases (lookup o.wallet_id k.wallets)) [
          | inl gone ↦ absurd (ground (arith, em, gone))
          | inr (tw, et) ↦ ground (arith, em, et)
        ]
      ]

  execute_fill-Still :
      (id : String) (maker o : Order) (k k' : Keeper)
      → execute_fill pair h now today id maker o k ≡ some k'
      → Still k k'
  execute_fill-Still id maker o k k' e =
      let f = execute_fill-Filled pair h now today id maker o k k' e in
      Still-trans k _ k' (settled _ pair k)
        (Still-same _ k' (execute_fill-wallet_seq id maker o k k' e) f.wallets)

  Runs-Still :
      {book : List String} {k : Keeper} {o : Order} {m : Matched}
      → Runs pair h now today book k o m
      → Still k m.keeper
  Runs-Still (at_end k o) = Still-same k k refl refl
  Runs-Still (taker_filled book k o full) = Still-same k k refl refl
  Runs-Still (price_reached j rest k o maker found beyond) = Still-same k k refl refl
  Runs-Still (own_order j rest k o maker m found own run) = Runs-Still run
  Runs-Still (trades j rest k k' o maker m left found within other done run) =
      Still-trans k k' m.keeper (execute_fill-Still j maker o k k' done) (Runs-Still run)

-- The end of a match writes no wallet.
ended : (now : Time) (m : Matched) → Still m.keeper (rest_on_book (close_match now m))
unfolding close_match rest_on_book
ended now m = Still-same m.keeper (rest_on_book (close_match now m)) (ground arith) (ground arith)

-- PlaceOrder, where it succeeds.
Placed-Still :
    (r : Request) (now : Time) (today : String) (k k' : Keeper) (o : Order) (ts : List Trade)
    → Placed r now today k k' o ts
    → Still k k'
unfolding opened_order lock
Placed-Still r now today k k' o ts p =
    let st = start_state r p.wallet p.pair now today k in
    subst (Still k) (sym p.state) (
      Still-trans k st _
        (Still-insert k st r.wallet_id p.wallet _ p.checks.wallet (λ off. off) refl refl)
        (Still-trans st p.matched.keeper _ (Runs-Still p.pair r.block_height now today p.runs)
          (ended now p.matched)))

pub place_order-Still :
    (r : Request) (now : Time) (today : String) (k : Keeper)
    (x : Keeper × Result Error (Order × List Trade))
    → place_order r now today k ≡ some x
    → Still k x.0
place_order-Still r now today k (k', err bad) e =
    subst (Still k) (sym (place_order-err r now today k k' bad e))
      (Still-same k (record k { daily_limits = k'.daily_limits }) refl refl)
place_order-Still r now today k (k', ok (o, ts)) e =
    Placed-Still r now today k k' o ts (place_order-Placed r now today k k' o ts e)

removed-wallet_seq : (o : Order) (k : Keeper) → (remove_from_book o k).wallet_seq ≡ k.wallet_seq
unfolding remove_from_book
removed-wallet_seq o k = ground arith

pub cancel_order-Still :
    (id wallet_id : String) (now : Time) (k : Keeper) (x : Keeper × Result Error (Unit {0}))
    → cancel_order id wallet_id now k ≡ some x
    → Still k x.0
unfolding unlock
cancel_order-Still id wallet_id now k (k', err bad) e =
    subst (Still k) (sym (cancel_order-err id wallet_id now k k' bad e)) (Still-same k k refl refl)
cancel_order-Still id wallet_id now k (k', ok tt) e =
    let (o, w, pair, found, own, owner, of_pair, state) =
      cancel_order-steps id wallet_id now k k' e in
    let (eo, ew, ep, ek, en) = cancelled-keeps id o w pair now k in
    subst (Still k) (sym state) (
      Still-insert k _ o.wallet_id w _ owner (λ off. off)
        (removed-wallet_seq (as_cancelled now o) (released id o w pair now k)) ew)
