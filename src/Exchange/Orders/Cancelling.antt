-- ===== src/Exchange/Orders/Cancelling.antt =====
-- CancelOrder on a well-formed exchange.
use ftg_chain.Base.{
  ℕ, subst, suc, ◌≡◌, refl, sym, ap, ◌∙◌, inl, inr, Bool, true, some, some_eq, List, [], ◌∷◌,
  String, arith, str_eq, eq_iff, Bool-cases, Option-cases, ne_of_eq_false,
}
use ftg_chain.Base.Dict.{lookup, insert, lookup-insert, lookup-insert_self, lookup-insert_ne}
use ftg_chain.Base.Fresh.{Fresh-old}
use ftg_chain.Base.Time.{Time}
use ftg_chain.Base.Result.{Result, ok, err}
use ftg_chain.Exchange.Types.{
  Keeper, Order, TradingPair, ExchangeWallet, Error, order_cancelled, order_filled, order_not_found,
  unauthorized, is_buy,
}
use ftg_chain.Exchange.Wallets.{unlock}
use ftg_chain.Exchange.Wallets.Totals.{present, is_some, is_some-value, present-insert}
use ftg_chain.Exchange.Matching.Books.{NotIn, BookOk, Listed-frame}
use ftg_chain.Exchange.Orders.{
  cancel_order, cancel_checked, remove_from_book, erase_first, lock_denom, lock_amount, is_filled,
  is_cancelled,
}
use ftg_chain.Exchange.Orders.Sound.{side_book, Sound, Sound-frame, side_book-same}
use ftg_chain.Exchange.Orders.Cancelled.{
  as_cancelled, released, remove_from_book-each_book, cancelled-keeps,
}

module _ (k : Keeper) (b : Bool) (p : String) where
  pub NotIn-erase_first :
      (j id : String) (book : List String) → NotIn j book → NotIn j (erase_first id book)
  unfolding erase_first
  NotIn-erase_first j id [] out = tt
  NotIn-erase_first j id (i ∷ book) (ne, out) = elim (Bool-cases (str_eq i id)) [
    | inl same ↦ rw same out
    | inr other ↦ rw other (ne, NotIn-erase_first j id book out)
  ]

  BookOk-erase_first :
      (id : String) (book : List String) → BookOk k b p book → BookOk k b p (erase_first id book)
  unfolding erase_first
  BookOk-erase_first id [] good = tt
  BookOk-erase_first id (i ∷ book) (l, out, good) = elim (Bool-cases (str_eq i id)) [
    | inl same ↦ rw same good
    | inr other ↦ rw other (l, NotIn-erase_first i id book out, BookOk-erase_first id book good)
  ]

  -- An order is rewritten with its owner, its place and its amounts kept.
  BookOk-rewrite :
      (k' : Keeper) (id : String) (o o' : Order) (book : List String)
      → lookup id k.orders ≡ some o
      → k'.orders ≡ insert id o' k.orders
      → ((j : String) → present j k.wallets ≡ true → present j k'.wallets ≡ true)
      → (o'.id ≡ o.id)
        × (o'.side ≡ o.side)
        × (o'.pair_id ≡ o.pair_id)
        × (o'.remaining_qty ≡ o.remaining_qty)
        × (o'.wallet_id ≡ o.wallet_id)
      → BookOk k b p book
      → BookOk k' b p book
  BookOk-rewrite k' id o o' [] found e wallets same good = tt
  BookOk-rewrite k' id o o' (i ∷ book) found e wallets (s_id, s_side, s_pair, s_left, s_wallet)
        (l, out, good) =
      (
        elim (Bool-cases (str_eq id i)) [
          | inr other ↦
              Listed-frame k k' b p i
                (ap (λ d. lookup i d) e
                  ∙ lookup-insert_ne id i o' k.orders (ne_of_eq_false id i other))
                wallets l
          | inl hit ↦
              let s : id ≡ i = (eq_iff id i).0 hit in
              let t : l.order ≡ o =
                some_eq (sym l.found ∙ ap (λ j. lookup j k.orders) (sym s) ∙ found) in
              record {
                order = o';
                found =
                    ap (λ d. lookup i d) e
                    ∙ ap (λ j. lookup j (insert id o' k.orders)) (sym s)
                    ∙ lookup-insert_self id o' k.orders;
                own = s_id ∙ sym (ap (λ x. x.id) t) ∙ l.own;
                side = ap is_buy s_side ∙ sym (ap (λ x. is_buy x.side) t) ∙ l.side;
                of_pair = s_pair ∙ sym (ap (λ x. x.pair_id) t) ∙ l.of_pair;
                positive = rw (s_left, ← t) l.positive;
                small = rw (s_left, ← t) l.small;
                owner =
                    ap (λ j. present j k'.wallets) (s_wallet ∙ sym (ap (λ x. x.wallet_id) t))
                    ∙ wallets l.order.wallet_id l.owner;
              }
        ],
        out,
        BookOk-rewrite k' id o o' book found e wallets (s_id, s_side, s_pair, s_left, s_wallet)
            good,
      )

-- CancelOrder keeps a well-formed exchange so, where it writes.
cancelled-Sound :
    (room : ℕ) (k : Keeper) (id : String) (o : Order) (w : ExchangeWallet) (pair : TradingPair)
    (now : Time)
    → Sound (suc room) k
    → lookup id k.orders ≡ some o
    → Sound room (remove_from_book (as_cancelled now o) (released id o w pair now k))
cancelled-Sound room k id o w pair now v found =
    let r = released id o w pair now k in
    let c = as_cancelled now o in
    let k' = remove_from_book c r in
    let (eo, ew, ep, ek, en) = cancelled-keeps id o w pair now k in
    let w' = unlock (lock_denom o.side pair) (lock_amount o.side o.price o.remaining_qty) w in
    let wallets' : (j : String) → present j k.wallets ≡ true → present j k'.wallets ≡ true =
      λ j h. ap (λ x. present j x) ew ∙ present-insert o.wallet_id j w' k.wallets h in
    let kept : (b : Bool) (p : String) (book : List String)
        → BookOk k b p book
        → BookOk k' b p book =
      λ b p book good.
        BookOk-rewrite k b p k' id o c book found eo wallets' (refl, refl, refl, refl, refl) good in
    record {
      within = let h = v.within in rw en (omega arith);
      pairs = ep ∙ v.pairs;
      fresh = rw (eo, en) (Fresh-old "FTG-ORD-" 8 k.order_seq k.orders id c o found v.fresh);
      books =
          remove_from_book-each_book (BookOk k') c r
            (kept (is_buy c.side) c.pair_id
              (erase_first c.id (side_book (is_buy c.side) c.pair_id r))
              (BookOk-erase_first k (is_buy c.side) c.pair_id c.id
                (side_book (is_buy c.side) c.pair_id r)
                (subst (BookOk k (is_buy c.side) c.pair_id)
                  (sym (side_book-same k r refl refl (is_buy c.side) c.pair_id))
                  (v.books (is_buy c.side) c.pair_id))))
            (λ b p differ.
              kept b p (side_book b p r)
                (subst (BookOk k b p) (sym (side_book-same k r refl refl b p)) (v.books b p)));
      owners = λ j x e.
          let e' : lookup j (insert id c k.orders) ≡ some x = sym (ap (λ d. lookup j d) eo) ∙ e in
          elim (Bool-cases (str_eq id j)) [
            | inl same ↦
                let t : c ≡ x = some_eq (rw same at (rw (lookup-insert id j c k.orders) at e')) in
                let (wo, po) = v.owners id o found in
                (
                  ap (λ i. present i k'.wallets) (sym (ap (λ y. y.wallet_id) t))
                      ∙ wallets' o.wallet_id wo,
                  ap (λ q. is_some (lookup x.pair_id q)) ep
                      ∙ ap (λ q. is_some (lookup q k.pairs)) (sym (ap (λ y. y.pair_id) t))
                      ∙ po,
                )
            | inr other ↦
                let (wx, px) =
                  v.owners j x (rw other at (rw (lookup-insert id j c k.orders) at e')) in
                (wallets' x.wallet_id wx, ap (λ q. is_some (lookup x.pair_id q)) ep ∙ px)
          ];
      applicants =
          λ j a e. wallets' a.wallet_id (v.applicants j a (sym (ap (λ d. lookup j d) ek) ∙ e));
    }

-- On a well-formed exchange, CancelOrder returns, and leaves the exchange well formed.
pub cancel_order-Sound :
    (room : ℕ) (k : Keeper) (id wallet_id : String) (now : Time)
    → Sound (suc room) k
    → (x : Keeper × Result Error (Unit {0})) × (cancel_order id wallet_id now k ≡ some x)
      × Sound room x.0
unfolding cancel_order cancel_checked
cancel_order-Sound room k id wallet_id now v =
    let idle : Sound room k = Sound-frame k refl refl refl refl refl refl (λ j h. h) v in
    elim (Option-cases (lookup id k.orders)) [
      | inl missing ↦ ((k, err order_not_found), rw (missing, cancel_order) refl, idle)
      | inr (o, found) ↦ elim (Bool-cases (str_eq o.wallet_id wallet_id)) [
        | inr other ↦ ((k, err unauthorized), rw (found, other, cancel_order) refl, idle)
        | inl own ↦ elim (Bool-cases (is_filled o.status)) [
          | inl full ↦ ((k, err order_filled), rw (found, own, full, cancel_order) refl, idle)
          | inr left ↦ elim (Bool-cases (is_cancelled o.status)) [
            | inl gone ↦
                ((k, err order_cancelled), rw (found, own, left, gone, cancel_order) refl, idle)
            | inr live ↦
                let (wo, po) = v.owners id o found in
                let (w, owner) = is_some-value (lookup o.wallet_id k.wallets) wo in
                let (pair, of_pair) = is_some-value (lookup o.pair_id k.pairs) po in
                (
                  (remove_from_book (as_cancelled now o) (released id o w pair now k), ok tt),
                  rw (found, own, left, live, owner, of_pair, cancel_order, cancel_checked) refl,
                  cancelled-Sound room k id o w pair now v found,
                )
          ]
        ]
      ]
    ]
