-- ===== src/Exchange/Market/Listing.antt =====
-- GetOrderBook dereferences no nil pointer where the books are well formed.
use ftg_chain.Base.{ℕ, ◌≡◌, refl, Bool, true, false, some, List, [], ◌∷◌, String}
use ftg_chain.Base.Time.{Time}
use ftg_chain.Exchange.Types.{Keeper}
use ftg_chain.Exchange.Matching.{book_of}
use ftg_chain.Exchange.Matching.Books.{BookOk}
use ftg_chain.Exchange.Orders.Sound.{BooksOk}
use ftg_chain.Exchange.Market.{
  OrderBookLevel, OrderBookSnapshot, add_level, add_levels, get_order_book,
}

add_levels-some :
    (k : Keeper) (b : Bool) (p : String) (ids : List String) (ls : List OrderBookLevel)
    → BookOk k b p ids
    → (ls' : List OrderBookLevel) × (add_levels k.orders ids ls ≡ some ls')
unfolding add_levels
add_levels-some k b p [] ls good = (ls, refl)
add_levels-some k b p (id ∷ ids) ls (l, _, good) =
    let (ls', e) = add_levels-some k b p ids (add_level l.order ls) good in
    (ls', rw (add_levels, l.found) e)

pub get_order_book-some :
    (pair_id : String) (depth : ℕ) (now : Time) (k : Keeper)
    → BooksOk k
    → (b : OrderBookSnapshot) × (get_order_book pair_id depth now k ≡ some b)
unfolding get_order_book
get_order_book-some pair_id depth now k books =
    let (bids, left) =
      add_levels-some k true pair_id (book_of k.buy_book pair_id) [] (books true pair_id) in
    let (asks, right) =
      add_levels-some k false pair_id (book_of k.sell_book pair_id) [] (books false pair_id) in
    rw (get_order_book, left, right) (_, refl)
