-- ===== src/Exchange/Orders/Sound.antt =====
-- Well-formed exchanges.
use ftg_chain.Base.{
  ℕ, subst, suc, ◌+◌, ◌<◌, ◌≡◌, sym, ap, ◌∙◌, Bool, true, false, some, List, String, arith,
}
use ftg_chain.Base.Word.{half}
use ftg_chain.Base.Dict.{lookup}
use ftg_chain.Base.Fresh.{Fresh}
use ftg_chain.Exchange.Types.{Keeper, Order, KycApplication, new_keeper}
use ftg_chain.Exchange.Wallets.Totals.{present, is_some}
use ftg_chain.Exchange.Matching.{book_of}
use ftg_chain.Exchange.Matching.Books.{BookOk, BookOk-frame}

-- The book of a pair, of the bids if `b`.
abbrev pub side_book : Bool → String → Keeper → List String
side_book true p k = book_of k.buy_book p
side_book false p k = book_of k.sell_book p

abbrev pub BooksOk : Keeper → Type 0
BooksOk k = (b : Bool) (p : String) → BookOk k b p (side_book b p k)

-- The books are well formed, every order has its wallet and its pair, every application has its
-- wallet, and there are numbers left for `room` orders.
pub record Sound (room : ℕ) (k : Keeper) : Type 0 where
  pub within : k.order_seq + room < half
  pub pairs : k.pairs ≡ new_keeper.pairs
  pub fresh : Fresh "FTG-ORD-" 8 k.order_seq k.orders
  pub books : BooksOk k
  pub owners :
      (id : String) (o : Order)
      → lookup id k.orders ≡ some o
      → (present o.wallet_id k.wallets ≡ true) × (is_some (lookup o.pair_id k.pairs) ≡ true)
  pub applicants :
      (id : String) (a : KycApplication)
      → lookup id k.kyc_apps ≡ some a
      → present a.wallet_id k.wallets ≡ true

pub side_book-same :
    (k k' : Keeper)
    → k'.buy_book ≡ k.buy_book
    → k'.sell_book ≡ k.sell_book
    → (b : Bool) (p : String) → side_book b p k' ≡ side_book b p k
side_book-same k k' bb sb true p = ap (λ d. book_of d p) bb
side_book-same k k' bb sb false p = ap (λ d. book_of d p) sb

-- The parts that matter stay, and no wallet goes.
pub Sound-frame :
    {room : ℕ} {k : Keeper} (k' : Keeper)
    → k'.order_seq ≡ k.order_seq
    → k'.pairs ≡ k.pairs
    → k'.orders ≡ k.orders
    → k'.buy_book ≡ k.buy_book
    → k'.sell_book ≡ k.sell_book
    → k'.kyc_apps ≡ k.kyc_apps
    → ((j : String) → present j k.wallets ≡ true → present j k'.wallets ≡ true)
    → Sound (suc room) k
    → Sound room k'
Sound-frame {room} {k} k' n p o bb sb ky wallets v = record {
  within = let h = v.within in omega arith;
  pairs = p ∙ v.pairs;
  fresh = rw (n, o) v.fresh;
  books = λ b q. subst (BookOk k' b q) (sym (side_book-same k k' bb sb b q)) (
      BookOk-frame k k' b q (side_book b q k) wallets (λ i l. ap (λ d. lookup i d) o)
        (v.books b q));
  owners = λ id x e.
      let (w, q) = v.owners id x (sym (ap (λ d. lookup id d) o) ∙ e) in
      (wallets x.wallet_id w, rw p q);
  applicants =
      λ id a e. wallets a.wallet_id (v.applicants id a (sym (ap (λ d. lookup id d) ky) ∙ e));
}
