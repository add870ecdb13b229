-- ===== src/Exchange/Orders/Steps.antt =====
-- From the books before a match to those after it.
use ftg_chain.Base.{
  ℕ, subst, ◌<◌, ◌≡◌, ◌≢◌, ◌⊎◌, refl, sym, ap, ◌∙◌, inl, inr, Bool, true, not, List, [], ◌∷◌, ◌++◌,
  String, arith,
}
use ftg_chain.Base.Word.{slt, half}
use ftg_chain.Base.Dict.{lookup, insert, lookup-insert_self}
use ftg_chain.Base.Lists.{sort_slice}
use ftg_chain.Base.Time.{Time}
use ftg_chain.Exchange.Types.{Keeper, Order, TradingPair, is_buy}
use ftg_chain.Exchange.Wallets.Totals.{present}
use ftg_chain.Exchange.Matching.{Matched, close_match}
use ftg_chain.Exchange.Matching.Runs.{Runs}
use ftg_chain.Exchange.Matching.Fills.{SameOrder, Runs-SameOrder}
use ftg_chain.Exchange.Matching.Books.{
  NotIn, Listed, BookOk, BookOk-frame, BookOk-insert, NotIn-other,
}
use ftg_chain.Exchange.Matching.Kept.{Runs-frame, Runs-BookOk, Runs-small, Runs-rest}
use ftg_chain.Exchange.Matching.Sorted.{BookOk-snoc, sort_slice-BookOk}
use ftg_chain.Exchange.Orders.{rest_on_book}
use ftg_chain.Exchange.Orders.Sound.{side_book, BooksOk, side_book-same}
use ftg_chain.Exchange.Orders.Written.{
  write_book, write_book-keeps, each_book, close_match-write_book, rest_on_book-cases,
  rest_on_book-keeps,
}

-- A book that is well formed in one state is so in another with the same orders and wallets.
BookOk-same :
    (k k' : Keeper) (b : Bool) (p : String) (book : List String)
    → k'.orders ≡ k.orders
    → k'.wallets ≡ k.wallets
    → BookOk k b p book
    → BookOk k' b p book
BookOk-same k k' b p book o w good =
    BookOk-frame k k' b p book (λ j h. ap (λ ws. present j ws) w ∙ h)
      (λ i l. ap (λ d. lookup i d) o) good

-- A well-formed book without a given order.
abbrev pub Without : String → Keeper → Bool → String → List String → Type 0
Without id k b p book = BookOk k b p book × NotIn id book

abbrev pub AllWithout : String → Keeper → Type 0
AllWithout id k = (b : Bool) (p : String) → Without id k b p (side_book b p k)

module _ (pair : TradingPair) (h : ℕ) (now : Time) (today : String) (k : Keeper) (o : Order)
    (m : Matched) (run : Runs pair h now today (side_book (not (is_buy o.side)) o.pair_id k) k o m)
    (small : o.remaining_qty < half) (good : AllWithout o.id k) where
  turn : (b b' : Bool) (p p' : String) → (b ≢ b') ⊎ (p ≢ p') → (b' ≢ b) ⊎ (p' ≢ p)
  turn b b' p p' (inl ne) = inl (λ s. ne (sym s))
  turn b b' p p' (inr ne) = inr (λ s. ne (sym s))

  walked : Without o.id m.keeper (not (is_buy o.side)) o.pair_id m.book
  walked =
      let (ok_book, out) = good (not (is_buy o.side)) o.pair_id in
      (
        Runs-BookOk pair h now today (not (is_buy o.side)) o.pair_id run small ok_book,
        (Runs-frame pair h now today run).2 o.id out,
      )

  others :
      (b : Bool) (p : String)
      → (b ≢ not (is_buy o.side)) ⊎ (p ≢ o.pair_id)
      → Without o.id m.keeper b p (side_book b p k)
  others b p differ =
      let (orders, wallets, out) = Runs-frame pair h now today run in
      let (ok_book, free) = good b p in
      (
        BookOk-frame k m.keeper b p (side_book b p k) (λ j e. wallets j ∙ e)
            (λ i l. orders i (
              NotIn-other k (not (is_buy o.side)) b o.pair_id p i
                (side_book (not (is_buy o.side)) o.pair_id k)
                (turn b (not (is_buy o.side)) p o.pair_id differ) l
                (good (not (is_buy o.side)) o.pair_id).0))
            ok_book,
        free,
      )

  pub closed_order : SameOrder o (close_match now m).order
  unfolding close_match
  closed_order =
      let s = Runs-SameOrder pair h now today run in
      record {
        id = s.id;
        wallet_id = s.wallet_id;
        pair_id = s.pair_id;
        side = s.side;
        order_type = s.order_type;
        price = s.price;
        quantity = s.quantity;
      }

  -- The state in which the taker's order is written and the walked book is not yet.
  stored : Keeper
  stored = record m.keeper { orders = insert o.id (close_match now m).order m.keeper.orders }

  closed_keeper :
      (close_match now m).keeper ≡ write_book (not (is_buy o.side)) o.pair_id m.book stored
  unfolding stored
  closed_keeper =
      let s = closed_order in
      close_match-write_book now m
      ∙ ap
          (λ c. write_book (not c) (close_match now m).order.pair_id m.book (record m.keeper {
            orders = insert (close_match now m).order.id (close_match now m).order m.keeper.orders;
          }))
          (ap is_buy s.side)
      ∙ ap
          (λ q. write_book (not (is_buy o.side)) q m.book (record m.keeper {
            orders = insert (close_match now m).order.id (close_match now m).order m.keeper.orders;
          }))
          s.pair_id
      ∙ ap
          (λ i.
            write_book (not (is_buy o.side)) o.pair_id m.book
              (record m.keeper { orders = insert i (close_match now m).order m.keeper.orders }))
          s.id

  stored-Without :
      (b : Bool) (p : String) (book : List String)
      → Without o.id m.keeper b p book
      → Without o.id stored b p book
  unfolding stored
  stored-Without b p book (ok_book, free) = (
    BookOk-insert m.keeper stored b p book o.id (close_match now m).order refl (λ j e. e) free
        ok_book,
    free,
  )

  closed_without : AllWithout o.id (close_match now m).keeper
  unfolding stored
  closed_without =
      let (es, ws, ps, ks, ns) = write_book-keeps (not (is_buy o.side)) o.pair_id m.book stored in
      let (bb, sb, x, y, z) = Runs-rest pair h now today run in
      subst (AllWithout o.id) (sym closed_keeper) (
        each_book (Without o.id (write_book (not (is_buy o.side)) o.pair_id m.book stored))
          (not (is_buy o.side)) o.pair_id m.book stored
          (written (not (is_buy o.side)) o.pair_id m.book walked)
          (λ b p differ. written b p (side_book b p stored) (
            subst (Without o.id m.keeper b p) (sym (side_book-same k stored bb sb b p))
              (others b p differ))))
    where
      written :
          (b : Bool) (p : String) (book : List String)
          → Without o.id m.keeper b p book
          → Without o.id (write_book (not (is_buy o.side)) o.pair_id m.book stored) b p book
      written b p book good_book =
          let (es, ws, ps, ks, ns) =
            write_book-keeps (not (is_buy o.side)) o.pair_id m.book stored in
          let (ok_book, free) = stored-Without b p book good_book in
          (
            BookOk-same stored (write_book (not (is_buy o.side)) o.pair_id m.book stored) b p book
                es ws ok_book,
            free,
          )

  -- The taker's order, where something is left of it, may join its side's book.
  joins :
      present o.wallet_id k.wallets ≡ true
      → slt 0 (close_match now m).order.remaining_qty ≡ true
      → Listed (close_match now m).keeper (is_buy o.side) o.pair_id o.id
  unfolding close_match stored
  joins there left =
      let s = closed_order in
      let (es, ws, ps, ks, ns) = write_book-keeps (not (is_buy o.side)) o.pair_id m.book stored in
      let o' = (close_match now m).order in
      let m_small : m.order.remaining_qty < half =
        Runs-small pair h now today (not (is_buy o.side)) o.pair_id run small
          (good (not (is_buy o.side)) o.pair_id).0 in
      record {
        order = o';
        found =
            ap (λ x. lookup o.id x.orders) closed_keeper
            ∙ ap (λ d. lookup o.id d) es
            ∙ lookup-insert_self o.id o' m.keeper.orders;
        own = s.id;
        side = ap is_buy s.side;
        of_pair = s.pair_id;
        positive = ground arith;
        small = m_small;
        owner =
            ap (λ x. present o'.wallet_id x.wallets) closed_keeper
            ∙ ap (λ ws'. present o'.wallet_id ws') ws
            ∙ (Runs-frame pair h now today run).1 o'.wallet_id
            ∙ ap (λ j. present j k.wallets) s.wallet_id
            ∙ there;
      }

  rested :
      (c : Keeper)
      → (c ≡ (close_match now m).keeper)
      → (less : String → String → Bool) → present o.wallet_id k.wallets ≡ true
      → slt 0 (close_match now m).order.remaining_qty ≡ true
      → BooksOk (
          write_book
            (is_buy o.side)
            o.pair_id
            (sort_slice less (side_book (is_buy o.side) o.pair_id c ++ o.id ∷ []))
            c)
  rested c same less there left =
      let all : AllWithout o.id c = subst (AllWithout o.id) (sym same) closed_without in
      let l : Listed c (is_buy o.side) o.pair_id o.id =
        subst (λ x. Listed x (is_buy o.side) o.pair_id o.id) (sym same) (joins there left) in
      let (ok_book, free) = all (is_buy o.side) o.pair_id in
      let book = sort_slice less (side_book (is_buy o.side) o.pair_id c ++ o.id ∷ []) in
      let (es, ws, ps, ks, ns) = write_book-keeps (is_buy o.side) o.pair_id book c in
      let k' = write_book (is_buy o.side) o.pair_id book c in
      each_book (BookOk k') (is_buy o.side) o.pair_id book c
        (BookOk-same c k' (is_buy o.side) o.pair_id book es ws (
          sort_slice-BookOk c (is_buy o.side) o.pair_id less
            (side_book (is_buy o.side) o.pair_id c ++ o.id ∷ [])
            (BookOk-snoc c (is_buy o.side) o.pair_id o.id (side_book (is_buy o.side) o.pair_id c) l
              free ok_book)))
        (λ b p differ. BookOk-same c k' b p (side_book b p c) es ws (all b p).0)

  -- After the match, and after what is left has joined its book, all books are well formed.
  pub placed-BooksOk :
      present o.wallet_id k.wallets ≡ true → BooksOk (rest_on_book (close_match now m))
  placed-BooksOk there = elim (rest_on_book-cases (close_match now m)) [
    | inl same ↦
        λ b p. subst (λ c. BookOk c b p (side_book b p c)) (sym same) (closed_without b p).0
    | inr (left, (less, same)) ↦
        let s = closed_order in
        let c = (close_match now m).keeper in
        let o' = (close_match now m).order in
        let names : write_book (is_buy o'.side) o'.pair_id
              (sort_slice less (side_book (is_buy o'.side) o'.pair_id c ++ o'.id ∷ [])) c
            ≡ write_book (is_buy o.side) o.pair_id
                (sort_slice less (side_book (is_buy o.side) o.pair_id c ++ o.id ∷ [])) c =
          renamed less c (is_buy o'.side) (is_buy o.side) o'.pair_id o.pair_id o'.id o.id
            (ap is_buy s.side) s.pair_id s.id in
        subst BooksOk (sym (same ∙ names)) (rested c refl less there left)
  ]
    where
      renamed :
          (less : String → String → Bool) (c : Keeper) (b b' : Bool) (p p' i i' : String)
          → b ≡ b'
          → p ≡ p'
          → i ≡ i'
          → write_book b p (sort_slice less (side_book b p c ++ i ∷ [])) c
            ≡ write_book b' p' (sort_slice less (side_book b' p' c ++ i' ∷ [])) c
      renamed less c b b' p p' i i' eb ep ei =
          ap (λ x. write_book x p (sort_slice less (side_book x p c ++ i ∷ [])) c) eb
          ∙ ap (λ x. write_book b' x (sort_slice less (side_book b' x c ++ i ∷ [])) c) ep
          ∙ ap (λ x. write_book b' p' (sort_slice less (side_book b' p' c ++ x ∷ [])) c) ei

  -- What the match leaves of the rest of the state.
  pub placed-rest :
      let k' = rest_on_book (close_match now m) in
      (k'.orders ≡ insert o.id (close_match now m).order m.keeper.orders)
      × (k'.wallets ≡ m.keeper.wallets)
      × (k'.pairs ≡ k.pairs)
      × (k'.kyc_apps ≡ k.kyc_apps)
      × (k'.order_seq ≡ k.order_seq)
  unfolding stored
  placed-rest =
      let (bb, sb, p, ky, n) = Runs-rest pair h now today run in
      let (eo, ew, ep, ek, en) = write_book-keeps (not (is_buy o.side)) o.pair_id m.book stored in
      let c = closed_keeper in
      let (ro, rw', rp, rk, rn) = rest_on_book-keeps (close_match now m) in
      (
        ro ∙ ap (λ x. x.orders) c ∙ eo,
        rw' ∙ ap (λ x. x.wallets) c ∙ ew,
        rp ∙ ap (λ x. x.pairs) c ∙ ep ∙ p,
        rk ∙ ap (λ x. x.kyc_apps) c ∙ ek ∙ ky,
        rn ∙ ap (λ x. x.order_seq) c ∙ en ∙ n,
      )
