-- ===== src/Exchange/Matching/Kept.antt =====
-- The loop of matchOrder, the book that it walks and what is outside that book.
use ftg_chain.Base.{
  ℕ, subst, ◌<◌, ◌≡◌, ◌≢◌, refl, sym, ap, ◌∙◌, inl, inr, Bool, true, false, some, List, ◌∷◌, String,
  arith, str_eq, eq_iff, ◌==◌, if◌then◌else◌, Bool-cases, some_eq,
}
use ftg_chain.Base.Word.{half, sub64}
use ftg_chain.Base.Dict.{lookup, insert, lookup-insert, lookup-insert_self, lookup-insert_ne}
use ftg_chain.Base.Time.{Time}
use ftg_chain.Exchange.Types.{Keeper, TradingPair, Order, is_buy}
use ftg_chain.Exchange.Matching.{fill_qty, fill, filled_maker, Matched}
use ftg_chain.Exchange.Matching.Runs.{Runs, at_end, taker_filled, price_reached, own_order, trades}
use ftg_chain.Exchange.Matching.Fills.{execute_fill-Filled}
use ftg_chain.Exchange.Matching.Books.{NotIn, Listed, BookOk, SameWallets, Listed-frame}
use ftg_chain.Exchange.Matching.Walk.{filled-SameWallets, execute_fill-rest, filled-BookOk}

-- What remains after a fill, of either side.
fill-small :
    (o maker : Order)
    → o.remaining_qty < half
    → maker.remaining_qty < half
    → ((fill (fill_qty o maker) o).remaining_qty < half)
      × ((fill (fill_qty o maker) maker).remaining_qty < half)
unfolding fill fill_qty sub64
fill-small o maker ho hm = ground arith

NotIn-kept :
    (j id : String) (b : List String) (gone : Bool)
    → id ≢ j
    → NotIn j b
    → NotIn j (if gone then b else id ∷ b)
NotIn-kept j id b true ne out = out
NotIn-kept j id b false ne out = (ne, out)

BookOk-kept :
    (k : Keeper) (b : Bool) (p id : String) (book : List String) (n : ℕ)
    → (0 < n → Listed k b p id)
    → NotIn id book
    → BookOk k b p book
    → BookOk k b p (if n == 0 then book else id ∷ book)
BookOk-kept k b p id book n l out ok = elim (Bool-cases (n == 0)) [
  | inl gone ↦ rw gone ok
  | inr left ↦ rw left (l (ground arith), out, ok)
]

module _ (pair : TradingPair) (block_height : ℕ) (now : Time) (today : String) where
  -- A run writes no order outside its book, and no wallet comes or goes.
  pub Runs-frame :
      {book : List String} {k : Keeper} {o : Order} {m : Matched}
      → Runs pair block_height now today book k o m
      → ((j : String) → NotIn j book → lookup j m.keeper.orders ≡ lookup j k.orders)
        × SameWallets k m.keeper
        × ((j : String) → NotIn j book → NotIn j m.book)
  Runs-frame (at_end k o) = (λ j out. refl, λ j. refl, λ j out. out)
  Runs-frame (taker_filled book k o full) = (λ j out. refl, λ j. refl, λ j out. out)
  Runs-frame (price_reached id rest k o maker found beyond) =
      (λ j out. refl, λ j. refl, λ j out. out)
  Runs-frame (own_order id rest k o maker m found own run) =
      let (orders, wallets, out) = Runs-frame run in
      (λ j (ne, h). orders j h, wallets, λ j (ne, h). (ne, out j h))
  Runs-frame (trades id rest k k' o maker m left found within other done run) =
      let (orders, wallets, out) = Runs-frame run in
      let f = execute_fill-Filled pair block_height now today id maker o k k' done in
      (
        λ j (ne, h).
            orders j h
            ∙ ap (λ d. lookup j d) f.orders
            ∙ lookup-insert_ne id j (filled_maker (fill_qty o maker) now maker) k.orders
                (λ s. ne s),
        λ j. wallets j ∙ filled-SameWallets pair block_height now today id maker o k k' done j,
        λ j (ne, h).
            NotIn-kept j id m.book ((fill (fill_qty o maker) maker).remaining_qty == 0) ne
              (out j h),
      )

  -- A run leaves its book well formed.
  pub Runs-BookOk :
      (b : Bool) (p : String) {book : List String} {k : Keeper} {o : Order} {m : Matched}
      → Runs pair block_height now today book k o m
      → o.remaining_qty < half
      → BookOk k b p book
      → BookOk m.keeper b p m.book
  unfolding fill filled_maker
  Runs-BookOk b p (at_end k o) small ok = tt
  Runs-BookOk b p (taker_filled book k o full) small ok = ok
  Runs-BookOk b p (price_reached id rest k o maker found beyond) small ok = ok
  Runs-BookOk b p (own_order id rest k o maker m found own run) small (l, out, ok) =
      let (orders, wallets, kept_out) = Runs-frame run in
      (
        Listed-frame k m.keeper b p id (orders id out) (λ j h. wallets j ∙ h) l,
        kept_out id out,
        Runs-BookOk b p run small ok,
      )
  Runs-BookOk b p (trades id rest k k' o maker m left found within other done run) small
        (l, out, ok) =
      let (orders, wallets, kept_out) = Runs-frame run in
      let f = execute_fill-Filled pair block_height now today id maker o k k' done in
      let qty = fill_qty o maker in
      let maker' = filled_maker qty now maker in
      let same : l.order ≡ maker = some_eq (sym l.found ∙ found) in
      let maker_small : maker.remaining_qty < half =
        subst (λ x. x.remaining_qty < half) same l.small in
      let (o_small, m_small) = fill-small o maker small maker_small in
      BookOk-kept m.keeper b p id m.book (fill qty maker).remaining_qty
        (λ positive. record {
          order = maker';
          found =
              orders id out
              ∙ ap (λ d. lookup id d) f.orders
              ∙ lookup-insert_self id maker' k.orders;
          own = sym (ap (λ x. x.id) same) ∙ l.own;
          side = sym (ap (λ x. is_buy x.side) same) ∙ l.side;
          of_pair = sym (ap (λ x. x.pair_id) same) ∙ l.of_pair;
          positive = positive;
          small = m_small;
          owner =
              wallets maker.wallet_id
              ∙ filled-SameWallets pair block_height now today id maker o k k' done maker.wallet_id
              ∙ f.maker_present;
        })
        (kept_out id out)
        (Runs-BookOk b p run o_small
          (filled-BookOk pair block_height now today b p id rest maker o k k' done out ok))

  -- A run keeps the owner and the pair of every order, and stores no new one.
  pub Runs-owners :
      {book : List String} {k : Keeper} {o : Order} {m : Matched}
      → Runs pair block_height now today book k o m
      → (id : String) (x : Order) → lookup id m.keeper.orders ≡ some x
      → (y : Order) × (lookup id k.orders ≡ some y)
        × (x.wallet_id ≡ y.wallet_id)
        × (x.pair_id ≡ y.pair_id)
  unfolding fill filled_maker
  Runs-owners (at_end k o) id x e = (x, e, refl, refl)
  Runs-owners (taker_filled book k o full) id x e = (x, e, refl, refl)
  Runs-owners (price_reached j rest k o maker found beyond) id x e = (x, e, refl, refl)
  Runs-owners (own_order j rest k o maker m found own run) id x e = Runs-owners run id x e
  Runs-owners (trades j rest k k' o maker m left found within other done run) id x e =
      let (y, ey, wallet, of_pair) = Runs-owners run id x e in
      let f = execute_fill-Filled pair block_height now today j maker o k k' done in
      let maker' = filled_maker (fill_qty o maker) now maker in
      let e' : lookup id (insert j maker' k.orders) ≡ some y =
        sym (ap (λ d. lookup id d) f.orders) ∙ ey in
      elim (Bool-cases (str_eq j id)) [
        | inl same ↦
            let s : j ≡ id = (eq_iff j id).0 same in
            let t : maker' ≡ y =
              some_eq (rw same at (rw (lookup-insert j id maker' k.orders) at e')) in
            (
              maker,
              subst (λ i. lookup i k.orders ≡ some maker) s found,
              wallet ∙ sym (ap (λ z. z.wallet_id) t),
              of_pair ∙ sym (ap (λ z. z.pair_id) t),
            )
        | inr apart ↦
            (y, rw apart at (rw (lookup-insert j id maker' k.orders) at e'), wallet, of_pair)
      ]

  pub Runs-small :
      (b : Bool) (p : String) {book : List String} {k : Keeper} {o : Order} {m : Matched}
      → Runs pair block_height now today book k o m
      → o.remaining_qty < half
      → BookOk k b p book
      → m.order.remaining_qty < half
  Runs-small b p (at_end k o) small ok = small
  Runs-small b p (taker_filled book k o full) small ok = small
  Runs-small b p (price_reached j rest k o maker found beyond) small ok = small
  Runs-small b p (own_order j rest k o maker m found own run) small (l, out, ok) =
      Runs-small b p run small ok
  Runs-small b p (trades j rest k k' o maker m left found within other done run) small
        (l, out, ok) =
      let same : l.order ≡ maker = some_eq (sym l.found ∙ found) in
      Runs-small b p run
        (fill-small o maker small (subst (λ x. x.remaining_qty < half) same l.small)).0
        (filled-BookOk pair block_height now today b p j rest maker o k k' done out ok)

  -- The books, the pairs, the applications and the count of orders stay.
  pub Runs-rest :
      {book : List String} {k : Keeper} {o : Order} {m : Matched}
      → Runs pair block_height now today book k o m
      → (m.keeper.buy_book ≡ k.buy_book)
        × (m.keeper.sell_book ≡ k.sell_book)
        × (m.keeper.pairs ≡ k.pairs)
        × (m.keeper.kyc_apps ≡ k.kyc_apps)
        × (m.keeper.order_seq ≡ k.order_seq)
  Runs-rest (at_end k o) = (refl, refl, refl, refl, refl)
  Runs-rest (taker_filled book k o full) = (refl, refl, refl, refl, refl)
  Runs-rest (price_reached j rest k o maker found beyond) = (refl, refl, refl, refl, refl)
  Runs-rest (own_order j rest k o maker m found own run) = Runs-rest run
  Runs-rest (trades j rest k k' o maker m left found within other done run) =
      let (a, b, c, d, e) = Runs-rest run in
      let (a', b', c', d', e') =
        execute_fill-rest pair block_height now today j maker o k k' done in
      (a ∙ a', b ∙ b', c ∙ c', d ∙ d', e ∙ e')
