-- ===== src/Exchange/Orders/Placing.antt =====
-- PlaceOrder on a well-formed exchange.
use ftg_chain.Base.{
  ℕ, subst, suc, ◌+◌, ◌<◌, ◌≡◌, ◌⊎◌, refl, sym, ap, ◌∙◌, inl, inr, true, false, not, none, some,
  some_eq, List, String, arith, str_eq, eq_iff, Bool-cases, Option-cases, ne_of_eq_false,
}
use ftg_chain.Base.Word.{slt, half, word, add64, add64_nat}
use ftg_chain.Base.Dict.{lookup, insert, lookup-insert, lookup-insert_self, lookup-insert_ne}
use ftg_chain.Base.Sprintf.{sprintf-ne}
use ftg_chain.Base.Time.{Time}
use ftg_chain.Base.Result.{Result, ok, err, Result-cases}
use ftg_chain.Exchange.Types.{
  Keeper, Order, Trade, TradingPair, ExchangeWallet, Error, is_buy, new_keeper,
}
use ftg_chain.Exchange.Wallets.{lock, available}
use ftg_chain.Exchange.Limits.{check_daily_limit}
use ftg_chain.Exchange.Wallets.Totals.{present, is_some, is_some-value, present-insert}
use ftg_chain.Exchange.Matching.{Matched, match_order, match_from, close_match}
use ftg_chain.Exchange.Matching.Runs.{Runs, Runs-match_from}
use ftg_chain.Exchange.Matching.Books.{BookOk, BookOk-frame, BookOk-insert, NotIn-free}
use ftg_chain.Exchange.Matching.Walk.{match_from-total}
use ftg_chain.Exchange.Matching.Kept.{Runs-frame, Runs-owners}
use ftg_chain.Exchange.Orders.{
  Request, order_id, checked, new_order, opened_order, rest_on_book, lock_and_match, place_order,
  lock_denom, lock_amount,
}
use ftg_chain.Exchange.Orders.Placed.{
  Checked, checked-Checked, opposite_book, limits_checked, check_daily_limit-limits_checked,
}
use ftg_chain.Exchange.Orders.Sound.{side_book, Sound, Sound-frame, side_book-same}
use ftg_chain.Exchange.Orders.Steps.{Without, AllWithout, closed_order, placed-BooksOk, placed-rest}

pub opposite_book-side_book :
    (o : Order) (k : Keeper) → opposite_book o k ≡ side_book (not (is_buy o.side)) o.pair_id k
opposite_book-side_book o k = elim (Bool-cases (is_buy o.side)) [
  | inl buys ↦ rw (buys, opposite_book) refl
  | inr sells ↦ rw (sells, opposite_book) refl
]

-- The one pair has a positive minimum, so what passes the checks is a positive int64.
quantity-small :
    (id : String) (n : ℕ) (pair : TradingPair)
    → lookup id new_keeper.pairs ≡ some pair
    → n < word
    → slt n pair.min_order_size ≡ false
    → n < half
unfolding lookup
quantity-small id n pair found w large =
    let m : pair.min_order_size ≡ 1000000 = elim (Bool-cases (str_eq "FTG-USDC" id)) [
      | inl same ↦ sym (ap (λ x. x.min_order_size) (some_eq (rw same at found)))
      | inr other ↦ let f : none ≡ some pair = rw other at found in absurd (cc)
    ] in
    let large' : slt n 1000000 ≡ false = rw m at large in ground arith

module _ (room : ℕ) (k : Keeper) (v : Sound (suc room) k) (r : Request) (w : ExchangeWallet)
    (pair : TradingPair) (now : Time) (today : String) (c : Checked r k w pair)
    (word_sized : r.quantity < word) where
  start : Order
  start = new_order r w (add64 k.order_seq 1) now

  opening : Keeper
  opening = opened_order r w pair now k

  next : add64 k.order_seq 1 ≡ k.order_seq + 1
  next = let h = v.within in add64_nat k.order_seq 1 (omega arith)

  free : lookup (order_id (add64 k.order_seq 1)) k.orders ≡ none
  unfolding order_id
  free =
      let h = v.within in let n = next in v.fresh (add64 k.order_seq 1) (omega arith) (omega arith)

  there : present r.wallet_id opening.wallets ≡ true
  unfolding opening opened_order
  there =
      rw
        (
          lookup-insert_self r.wallet_id
              (lock (lock_denom r.side pair) (lock_amount r.side r.price r.quantity) w) k.wallets,
          is_some,
        )
        refl

  opening-wallets : (j : String) → present j k.wallets ≡ true → present j opening.wallets ≡ true
  unfolding opening opened_order
  opening-wallets j h =
      present-insert r.wallet_id j
        (lock (lock_denom r.side pair) (lock_amount r.side r.price r.quantity) w) k.wallets h

  opening_good : AllWithout start.id opening
  unfolding opening opened_order start new_order
  opening_good b p =
      let out =
        NotIn-free k b p (order_id (add64 k.order_seq 1)) (side_book b p k) free (v.books b p) in
      subst (Without start.id opening b p) (sym (side_book-same k opening refl refl b p)) (
        BookOk-insert k opening b p (side_book b p k) (order_id (add64 k.order_seq 1)) start refl
            opening-wallets out (v.books b p),
        out,
      )

  small : start.remaining_qty < half
  unfolding start new_order
  small =
      quantity-small r.pair_id r.quantity pair
        (sym (ap (λ d. lookup r.pair_id d) v.pairs) ∙ c.listed) word_sized c.large

  -- Every order that is stored afterwards is the new one, or has its owner and its pair from before.
  origin :
      (m : Matched)
      → Runs pair r.block_height now today
          (side_book (not (is_buy start.side)) start.pair_id opening)
          opening
          start
          m
      → (id : String) (x : Order)
      → lookup id (insert start.id (close_match now m).order m.keeper.orders) ≡ some x
      → ((start.id ≡ id) × (x.wallet_id ≡ r.wallet_id) × (x.pair_id ≡ r.pair_id))
        ⊎ ((y : Order) × (lookup id k.orders ≡ some y)
            × (x.wallet_id ≡ y.wallet_id)
            × (x.pair_id ≡ y.pair_id))
  unfolding opening opened_order start new_order
  origin m run id x e =
      let o' = (close_match now m).order in
      elim (Bool-cases (str_eq start.id id)) [
        | inl same ↦
            let t : o' ≡ x =
              some_eq (rw same at (rw (lookup-insert start.id id o' m.keeper.orders) at e)) in
            let s =
              closed_order pair r.block_height now today opening start m run small opening_good in
            inl (
              (eq_iff start.id id).0 same,
              sym (ap (λ y. y.wallet_id) t) ∙ s.wallet_id,
              sym (ap (λ y. y.pair_id) t) ∙ s.pair_id,
            )
        | inr other ↦
            let before = rw other at (rw (lookup-insert start.id id o' m.keeper.orders) at e) in
            let (y, ey, wallet, of_pair) =
              Runs-owners pair r.block_height now today run id x before in
            inr (
              y,
              sym (lookup-insert_ne start.id id start k.orders (ne_of_eq_false start.id id other))
                  ∙ ey,
              wallet,
              of_pair,
            )
      ]

  -- What the match makes of the well-formed exchange.
  matched-Sound :
      (m : Matched)
      → Runs pair r.block_height now today
          (side_book (not (is_buy start.side)) start.pair_id opening)
          opening
          start
          m
      → Sound room (rest_on_book (close_match now m))
  unfolding opening opened_order start new_order order_id
  matched-Sound m run =
      let k' = rest_on_book (close_match now m) in
      let (eo, ew, ep, ek, en) =
        placed-rest pair r.block_height now today opening start m run small opening_good in
      let (orders, wallets, out) = Runs-frame pair r.block_height now today run in
      let present' : (j : String) → present j k.wallets ≡ true → present j k'.wallets ≡ true =
        λ j h. ap (λ ws. present j ws) ew ∙ wallets j ∙ opening-wallets j h in
      let h = v.within in
      let n = next in
      record {
        within = rw en (omega (arith, h, n));
        pairs = ep ∙ v.pairs;
        fresh = λ i hi above. elim (Option-cases (lookup (order_id i) k'.orders)) [
          | inl none_yet ↦ none_yet
          | inr (x, e) ↦
              elim (origin m run (order_id i) x (sym (ap (λ d. lookup (order_id i) d) eo) ∙ e)) [
                | inl (same, wallet, of_pair) ↦ absurd (
                    sprintf-ne "FTG-ORD-" 8 (add64 k.order_seq 1) i (omega arith) hi
                      (let a = rw en at above in omega arith) same)
                | inr (y, ey, wallet, of_pair) ↦
                    let f : none ≡ some y =
                      sym (v.fresh i hi (let a = rw en at above in omega arith)) ∙ ey in
                    absurd (cc)
              ]
        ];
        books =
            placed-BooksOk pair r.block_height now today opening start m run small opening_good
              there;
        owners = λ id x e. elim (origin m run id x (sym (ap (λ d. lookup id d) eo) ∙ e)) [
          | inl (same, wallet, of_pair) ↦ (
            ap (λ j. present j k'.wallets) wallet
                ∙ ap (λ ws. present r.wallet_id ws) ew
                ∙ wallets r.wallet_id
                ∙ there,
            ap (λ q. is_some (lookup x.pair_id q)) ep
                ∙ ap (λ q. is_some (lookup q k.pairs)) of_pair
                ∙ ap is_some c.listed,
          )
          | inr (y, ey, wallet, of_pair) ↦
              let (wy, py) = v.owners id y ey in
              (
                ap (λ j. present j k'.wallets) wallet ∙ present' y.wallet_id wy,
                ap (λ q. is_some (lookup x.pair_id q)) ep
                    ∙ ap (λ q. is_some (lookup q k.pairs)) of_pair
                    ∙ py,
              )
        ];
        applicants =
            λ id a e. present' a.wallet_id (v.applicants id a (sym (ap (λ d. lookup id d) ek) ∙ e));
      }

  -- After its checks, PlaceOrder returns, with a well-formed exchange.
  lock_and_match-Sound :
      (x : Keeper × Result Error (Order × List Trade)) × (lock_and_match r w pair now today k
        ≡ some x)
      × Sound room x.0
  unfolding lock_and_match match_order start opening
  lock_and_match-Sound =
      elim (Bool-cases
        (slt (available (lock_denom r.side pair) w) (lock_amount r.side r.price r.quantity))) [
          | inl short ↦ (
            (k, err Error.insufficient_balance),
            rw (short, lock_and_match) refl,
            Sound-frame k refl refl refl refl refl refl (λ j h. h) v,
          )
          | inr funded ↦
              let book = side_book (not (is_buy start.side)) start.pair_id opening in
              let (m, run) =
                is_some-value (match_from pair r.block_height now today book opening start) (
                  match_from-total pair r.block_height now today (not (is_buy start.side))
                    start.pair_id book opening start
                    (opening_good (not (is_buy start.side)) start.pair_id).0 there) in
              let run' : match_from pair r.block_height now today (opposite_book start opening)
                    opening start
                  ≡ some m =
                ap (λ b. match_from pair r.block_height now today b opening start)
                  (opposite_book-side_book start opening)
                ∙ run in
              let closed = close_match now m in
              (
                (rest_on_book closed, ok (closed.order, closed.trades)),
                rw (funded, lock_and_match) (rw (run', match_order) refl),
                matched-Sound m
                    (Runs-match_from pair r.block_height now today book opening start run),
              )
        ]

-- On a well-formed exchange, PlaceOrder of an int64 quantity returns, and leaves the exchange well
-- formed.
pub place_order-Sound :
    (room : ℕ) (k : Keeper) (r : Request) (now : Time) (today : String)
    → Sound (suc room) k
    → r.quantity < word
    → (x : Keeper × Result Error (Order × List Trade)) × (place_order r now today k ≡ some x)
      × Sound room x.0
unfolding place_order
place_order-Sound room k r now today v sized = elim (Result-cases (checked r k)) [
  | inl (bad, e) ↦ (
    (k, err bad),
    rw (e, place_order) refl,
    Sound-frame k refl refl refl refl refl refl (λ j h. h) v,
  )
  | inr ((w, pair), e) ↦
      let k' = (check_daily_limit w r.price r.quantity today k).0 in
      let same : k' ≡ limits_checked r w today k = check_daily_limit-limits_checked r w today k in
      let c = checked-Checked r k w pair e in
      elim (Option-cases (check_daily_limit w r.price r.quantity today k).1) [
        | inr (bad, d) ↦ (
          (k', err bad),
          rw (e, d, place_order) refl,
          subst (Sound room) (sym same)
              (Sound-frame (limits_checked r w today k) refl refl refl refl refl refl (λ j h. h) v),
        )
        | inl passed ↦
            let v' : Sound (suc room) (limits_checked r w today k) = record {
              within = v.within;
              pairs = v.pairs;
              fresh = v.fresh;
              books = λ b p.
                  subst (BookOk (limits_checked r w today k) b p)
                    (sym (side_book-same k (limits_checked r w today k) refl refl b p))
                    (BookOk-frame k (limits_checked r w today k) b p (side_book b p k) (λ j h. h)
                      (λ i l. refl) (v.books b p));
              owners = v.owners;
              applicants = v.applicants;
            } in
            let c' : Checked r (limits_checked r w today k) w pair = record {
              wallet = c.wallet;
              active = c.active;
              tier = c.tier;
              enabled = c.enabled;
              listed = c.listed;
              tradable = c.tradable;
              large = c.large;
              priced = c.priced;
            } in
            let (x, run, sound) =
              lock_and_match-Sound room (limits_checked r w today k) v' r w pair now today c'
                sized in
            (
              x,
              rw (e, passed, place_order)
                  (ap (λ q. lock_and_match r w pair now today q) same ∙ run),
              sound,
            )
      ]
]
