-- ===== src/Exchange/Orders/Cancelled.antt =====
-- What CancelOrder releases.
use ftg_chain.Base.{
  ◌≢◌, ◌⊎◌, subst, Bool, List, [], ◌≡◌, refl, sym, ap, inl, inr, some, String, arith, eq_iff,
  Bool-cases, Option-cases,
}
use ftg_chain.Base.Dict.{Dict, modify, lookup, insert}
use ftg_chain.Base.Time.{Time}
use ftg_chain.Base.Result.{ok, err}
use ftg_chain.Exchange.Types.{
  Keeper, Order, OrderStatus, TradingPair, ExchangeWallet, order_cancelled, is_buy,
}
use ftg_chain.Exchange.Wallets.{unlock}
use ftg_chain.Exchange.Matching.{book_of}
use ftg_chain.Exchange.Orders.{
  cancel_order, cancel_checked, remove_from_book, erase_first, lock_denom, lock_amount,
}
use ftg_chain.Exchange.Orders.Sound.{side_book}
use ftg_chain.Exchange.Orders.Written.{write_book, each_book, same_book}

-- The entry of a pair is rewritten where there is one.
modify-cases :
    (f : List String → List String) (p : String) (books : Dict (List String))
    → ((modify f p books ≡ books) × (book_of books p ≡ []))
      ⊎ (modify f p books ≡ insert p (f (book_of books p)) books)
unfolding modify
modify-cases f p books = elim (Option-cases (lookup p books)) [
  | inl missing ↦ inl (rw (missing, modify) refl, rw (missing, book_of) refl)
  | inr (b, found) ↦ inr (rw (found, modify, book_of) refl)
]

-- The books stay, or the order's book is written without its entry.
remove_from_book-cases :
    (o : Order) (k : Keeper)
    → ((remove_from_book o k ≡ k) × (side_book (is_buy o.side) o.pair_id k ≡ []))
      ⊎ (remove_from_book o k
          ≡ write_book
              (is_buy o.side)
              o.pair_id
              (erase_first o.id (side_book (is_buy o.side) o.pair_id k))
              k)
unfolding remove_from_book
remove_from_book-cases o k = elim (Bool-cases (is_buy o.side)) [
  | inl buys ↦ elim (modify-cases (erase_first o.id) o.pair_id k.buy_book) [
    | inl (same, empty) ↦ rw buys (inl (ap (λ d. record k { buy_book = d }) same, empty))
    | inr written ↦ rw buys (inr (ap (λ d. record k { buy_book = d }) written))
  ]
  | inr sells ↦ elim (modify-cases (erase_first o.id) o.pair_id k.sell_book) [
    | inl (same, empty) ↦ rw sells (inl (ap (λ d. record k { sell_book = d }) same, empty))
    | inr written ↦ rw sells (inr (ap (λ d. record k { sell_book = d }) written))
  ]
]

-- A property that holds of the book without the entry and of the other books holds of all books.
pub remove_from_book-each_book :
    (P : Bool → String → List String → Type 0) (o : Order) (k : Keeper)
    → P (is_buy o.side) o.pair_id (erase_first o.id (side_book (is_buy o.side) o.pair_id k))
    → ((b : Bool) (p : String) → (b ≢ is_buy o.side) ⊎ (p ≢ o.pair_id) → P b p (side_book b p k))
    → (b : Bool) (p : String) → P b p (side_book b p (remove_from_book o k))
unfolding erase_first
remove_from_book-each_book P o k new others b p = elim (remove_from_book-cases o k) [
  | inr written ↦
      subst (λ x. P b p (side_book b p x)) (sym written)
        (each_book P (is_buy o.side) o.pair_id _ k new others b p)
  | inl (same, empty) ↦
      subst (λ x. P b p (side_book b p x)) (sym same)
        (elim (same_book b (is_buy o.side) p o.pair_id) [
          | inr differ ↦ others b p differ
          | inl (sb, sp) ↦
              let here : P (is_buy o.side) o.pair_id [] =
                subst (λ book. P (is_buy o.side) o.pair_id (erase_first o.id book)) empty new in
              subst (λ c. P c p (side_book c p k)) (sym sb)
                (subst (λ q. P (is_buy o.side) q (side_book (is_buy o.side) q k)) (sym sp)
                  (subst (P (is_buy o.side) o.pair_id) (sym empty) here))
        ])
]

-- It writes the books alone.
remove_from_book-keeps :
    (o : Order) (k : Keeper)
    → ((remove_from_book o k).orders ≡ k.orders)
      × ((remove_from_book o k).wallets ≡ k.wallets)
      × ((remove_from_book o k).pairs ≡ k.pairs)
      × ((remove_from_book o k).kyc_apps ≡ k.kyc_apps)
      × ((remove_from_book o k).order_seq ≡ k.order_seq)
unfolding remove_from_book
remove_from_book-keeps o k = elim (Bool-cases (is_buy o.side)) [
  | inl buys ↦ rw buys (refl, refl, refl, refl, refl)
  | inr sells ↦ rw sells (refl, refl, refl, refl, refl)
]

-- A cancelled order as it is stored.
abbrev pub as_cancelled : Time → Order → Order
as_cancelled now o = record o { status = OrderStatus.cancelled; updated_at = now }

-- What CancelOrder writes before the order leaves its book.
abbrev pub released : String → Order → ExchangeWallet → TradingPair → Time → Keeper → Keeper
released id o w pair now k = record k {
  wallets =
      insert o.wallet_id
        (unlock (lock_denom o.side pair) (lock_amount o.side o.price o.remaining_qty) w) k.wallets;
  orders = insert id (as_cancelled now o) k.orders;
}

-- A call of CancelOrder that succeeds.
pub cancel_order-steps :
    (id wallet_id : String) (now : Time) (k k' : Keeper)
    → cancel_order id wallet_id now k ≡ some (k', ok tt)
    → (o : Order) × (w : ExchangeWallet) × (pair : TradingPair) × (lookup id k.orders ≡ some o)
      × (o.wallet_id ≡ wallet_id)
      × (lookup o.wallet_id k.wallets ≡ some w)
      × (lookup o.pair_id k.pairs ≡ some pair)
      × (k' ≡ remove_from_book (as_cancelled now o) (released id o w pair now k))
unfolding cancel_order cancel_checked
cancel_order-steps id wallet_id now k k' e = elim (Option-cases (lookup id k.orders)) [
  | inl missing ↦ absurd (ground (arith, missing))
  | inr (o, found) ↦ elim (Option-cases (lookup o.wallet_id k.wallets)) [
    | inl missing ↦ absurd (ground (arith, found, missing))
    | inr (w, owner) ↦ elim (Option-cases (lookup o.pair_id k.pairs)) [
      | inl missing ↦ absurd (ground (arith, found, owner, missing))
      | inr (pair, of_pair) ↦ (
        o,
        w,
        pair,
        found,
        ground (arith, found, owner, of_pair, eq_iff o.wallet_id wallet_id),
        owner,
        of_pair,
        ground (arith, found, owner, of_pair),
      )
    ]
  ]
]

-- The state after a cancellation, apart from the book.
pub cancelled-keeps :
    (id : String) (o : Order) (w : ExchangeWallet) (pair : TradingPair) (now : Time) (k : Keeper)
    → let k' = remove_from_book (as_cancelled now o) (released id o w pair now k) in
      (k'.orders ≡ insert id (as_cancelled now o) k.orders)
      × (k'.wallets
          ≡ insert o.wallet_id
              (unlock (lock_denom o.side pair) (lock_amount o.side o.price o.remaining_qty) w)
              k.wallets)
      × (k'.pairs ≡ k.pairs)
      × (k'.kyc_apps ≡ k.kyc_apps)
      × (k'.order_seq ≡ k.order_seq)
cancelled-keeps id o w pair now k =
    remove_from_book-keeps (as_cancelled now o) (released id o w pair now k)

pub cancel_order-refused :
    (id wallet_id : String) (now : Time) (k : Keeper) (o : Order)
    → lookup id k.orders ≡ some o
    → o.wallet_id ≡ wallet_id
    → o.status ≡ OrderStatus.cancelled
    → cancel_order id wallet_id now k ≡ some (k, err order_cancelled)
unfolding cancel_order
cancel_order-refused id wallet_id now k o found own st =
    rw (found, (eq_iff o.wallet_id wallet_id).1 own, st, cancel_order) refl
