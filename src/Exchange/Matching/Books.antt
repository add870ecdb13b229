-- ===== src/Exchange/Matching/Books.antt =====
-- The order books: every entry is an order of the book's side and pair with something left, whose
-- owner has a wallet, and no order is entered twice.
use ftg_chain.Base.{
  ◌<◌, ◌≡◌, ◌≢◌, ◌⊎◌, sym, ap, ◌∙◌, inl, inr, Bool, true, none, some, List, [], ◌∷◌, String,
  Bool-cases,
}
use ftg_chain.Base.Word.{half}
use ftg_chain.Base.Dict.{Dict, lookup, insert, lookup-insert_ne}
use ftg_chain.Exchange.Types.{Keeper, ExchangeWallet, TradingPair, Order, Trade, is_buy}
use ftg_chain.Exchange.Wallets.Totals.{present, present-modify}
use ftg_chain.Exchange.Matching.{settle_wallets}

abbrev pub NotIn : String → List String → Type 0
NotIn j [] = Unit {0}
NotIn j (i ∷ b) = (i ≢ j) × NotIn j b

-- An entry of the book of a pair, on the buy side if `b`.
pub record Listed (k : Keeper) (b : Bool) (pair_id id : String) : Type 0 where
  pub order : Order
  pub found : lookup id k.orders ≡ some order
  pub own : order.id ≡ id
  pub side : is_buy order.side ≡ b
  pub of_pair : order.pair_id ≡ pair_id
  pub positive : 0 < order.remaining_qty
  pub small : order.remaining_qty < half
  pub owner : present order.wallet_id k.wallets ≡ true

abbrev pub BookOk : Keeper → Bool → String → List String → Type 0
BookOk k b p [] = Unit {0}
BookOk k b p (id ∷ rest) = Listed k b p id × NotIn id rest × BookOk k b p rest

-- The wallets that are there are the same.
abbrev pub SameWallets : Keeper → Keeper → Type 0
SameWallets k k' = (j : String) → present j k'.wallets ≡ present j k.wallets

module _ (k k' : Keeper) (b : Bool) (p : String) where
  pub Listed-frame :
      (id : String)
      → lookup id k'.orders ≡ lookup id k.orders
      → ((j : String) → present j k.wallets ≡ true → present j k'.wallets ≡ true)
      → Listed k b p id
      → Listed k' b p id
  Listed-frame id same wallets l = record {
    order = l.order;
    found = same ∙ l.found;
    own = l.own;
    side = l.side;
    of_pair = l.of_pair;
    positive = l.positive;
    small = l.small;
    owner = wallets l.order.wallet_id l.owner;
  }

  pub BookOk-frame :
      (book : List String)
      → ((j : String) → present j k.wallets ≡ true → present j k'.wallets ≡ true)
      → ((id : String) → Listed k b p id → lookup id k'.orders ≡ lookup id k.orders)
      → BookOk k b p book
      → BookOk k' b p book
  BookOk-frame [] wallets same h = tt
  BookOk-frame (id ∷ rest) wallets same (l, n, h) =
      (Listed-frame id (same id l) wallets l, n, BookOk-frame rest wallets same h)

  -- An order outside the book is written.
  pub BookOk-insert :
      (book : List String) (j : String) (o : Order)
      → k'.orders ≡ insert j o k.orders
      → ((i : String) → present i k.wallets ≡ true → present i k'.wallets ≡ true)
      → NotIn j book
      → BookOk k b p book
      → BookOk k' b p book
  BookOk-insert [] j o e wallets out h = tt
  BookOk-insert (id ∷ rest) j o e wallets (ne, out) (l, n, h) = (
    Listed-frame id (rw e (lookup-insert_ne j id o k.orders (λ s. ne (sym s)))) wallets l,
    n,
    BookOk-insert rest j o e wallets out h,
  )

-- An identifier under which nothing is stored is in no book.
pub NotIn-free :
    (k : Keeper) (b : Bool) (p j : String) (book : List String)
    → lookup j k.orders ≡ none
    → BookOk k b p book
    → NotIn j book
NotIn-free k b p j [] free h = tt
NotIn-free k b p j (id ∷ rest) free (l, n, h) = (
  (λ s.
      let f : none ≡ some l.order = sym free ∙ ap (λ x. lookup x k.orders) (sym s) ∙ l.found in cc),
  NotIn-free k b p j rest free h,
)

-- Books of different sides or pairs share no order.
pub NotIn-other :
    (k : Keeper) (b b' : Bool) (p p' j : String) (book : List String)
    → (b ≢ b') ⊎ (p ≢ p')
    → Listed k b' p' j
    → BookOk k b p book
    → NotIn j book
NotIn-other k b b' p p' j [] differ lj h = tt
NotIn-other k b b' p p' j (id ∷ rest) differ lj (l, n, h) =
    (apart, NotIn-other k b b' p p' j rest differ lj h)
  where
    apart : id ≢ j
    apart s =
        let f : some l.order ≡ some lj.order =
          sym l.found ∙ ap (λ x. lookup x k.orders) s ∙ lj.found in
        let g : l.order ≡ lj.order = cc in
        elim differ [
          | inl sides ↦ sides (sym l.side ∙ ap (λ o. is_buy o.side) g ∙ lj.side)
          | inr pairs ↦ pairs (sym l.of_pair ∙ ap (λ o. o.pair_id) g ∙ lj.of_pair)
        ]

pub settle_wallets-present :
    (t : Trade) (pair : TradingPair) (ws : Dict ExchangeWallet) (j : String)
    → present j (settle_wallets t pair ws) ≡ present j ws
unfolding settle_wallets
settle_wallets-present t pair ws j = elim (Bool-cases (is_buy t.side)) [
  | inl buys ↦ rw buys (simp present-modify)
  | inr sells ↦ rw sells (simp present-modify)
]
