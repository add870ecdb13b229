-- ===== src/Exchange/Orders/Retired.antt =====
-- Orders that are off the books: stored as cancelled, and an entry of no book; and removeFromBook of
-- x/exchange/keeper/keeper.go.
use ftg_chain.Base.{
  ℕ, subst, ◌≡◌, refl, sym, ap, ◌∙◌, inl, inr, Bool, some, some_eq, List, [], ◌∷◌, String, str_eq,
  eq_iff, Bool-cases, ne_of_eq_false,
}
use ftg_chain.Base.Dict.{lookup, lookup-insert_self}
use ftg_chain.Base.Time.{Time}
use ftg_chain.Exchange.Types.{Keeper, Order, OrderStatus, TradingPair, ExchangeWallet, is_buy}
use ftg_chain.Exchange.Matching.Books.{NotIn, Listed, BookOk}
use ftg_chain.Exchange.Orders.{remove_from_book, erase_first}
use ftg_chain.Exchange.Orders.Sound.{side_book, side_book-same, Sound}
use ftg_chain.Exchange.Orders.Cancelled.{
  as_cancelled, released, remove_from_book-each_book, cancelled-keeps,
}
use ftg_chain.Exchange.Orders.Cancelling.{NotIn-erase_first}

abbrev pub OffBooks : String → Keeper → Type 0
OffBooks id k = (b : Bool) (p : String) → NotIn id (side_book b p k)

pub record Retired (id : String) (o : Order) (k : Keeper) : Type 0 where
  pub stored : lookup id k.orders ≡ some o
  pub gone : o.status ≡ OrderStatus.cancelled
  pub off : OffBooks id k

-- The orders and the books are the same.
abbrev pub SameBooks : Keeper → Keeper → Type 0
SameBooks k k' = (k'.orders ≡ k.orders) × (k'.buy_book ≡ k.buy_book) × (k'.sell_book ≡ k.sell_book)

pub Retired-frame :
    (id : String) (o : Order) (k k' : Keeper) → SameBooks k k' → Retired id o k → Retired id o k'
Retired-frame id o k k' (os, bb, sb) v = record {
  stored = ap (λ d. lookup id d) os ∙ v.stored;
  gone = v.gone;
  off = λ b p. subst (NotIn id) (sym (side_book-same k k' bb sb b p)) (v.off b p);
}

-- An order that is not listed in a well-formed book is no entry of it.
NotIn-unlisted :
    (k : Keeper) (b : Bool) (p id : String) (book : List String)
    → BookOk k b p book
    → (Listed k b p id → ⊥)
    → NotIn id book
NotIn-unlisted k b p id [] good never = tt
NotIn-unlisted k b p id (i ∷ book) (l, out, good) never =
    (λ s. never (subst (Listed k b p) s l), NotIn-unlisted k b p id book good never)

NotIn-erased_self :
    (k : Keeper) (b : Bool) (p id : String) (book : List String)
    → BookOk k b p book
    → NotIn id (erase_first id book)
unfolding erase_first
NotIn-erased_self k b p id [] good = tt
NotIn-erased_self k b p id (i ∷ book) (l, out, good) = elim (Bool-cases (str_eq i id)) [
  | inl same ↦ rw same (subst (λ j. NotIn j book) ((eq_iff i id).0 same) out)
  | inr other ↦ rw other (ne_of_eq_false i id other, NotIn-erased_self k b p id book good)
]

-- The first entry of an order goes with its identifier, and there is no second.
NotIn-erased :
    (k : Keeper) (b : Bool) (p id : String) (o : Order) (book : List String)
    → BookOk k b p book
    → lookup id k.orders ≡ some o
    → NotIn id (erase_first o.id book)
NotIn-erased k b p id o book good found = elim (Bool-cases (str_eq o.id id)) [
  | inl same ↦
      subst (λ j. NotIn id (erase_first j book)) (sym ((eq_iff o.id id).0 same))
        (NotIn-erased_self k b p id book good)
  | inr other ↦ NotIn-erase_first k b p id o.id book (
      NotIn-unlisted k b p id book good (λ l.
        ne_of_eq_false o.id id other (ap (λ x. x.id) (some_eq (sym found ∙ l.found)) ∙ l.own)))
]

-- CancelOrder takes the order off its book, and it is on no other.
pub cancelled-Retired :
    (room : ℕ) (k : Keeper) (id : String) (o : Order) (w : ExchangeWallet) (pair : TradingPair)
    (now : Time)
    → Sound room k
    → lookup id k.orders ≡ some o
    → Retired id
        (as_cancelled now o)
        (remove_from_book (as_cancelled now o) (released id o w pair now k))
cancelled-Retired room k id o w pair now v found =
    let r = released id o w pair now k in
    let c = as_cancelled now o in
    let (eo, ew, ep, ek, en) = cancelled-keeps id o w pair now k in
    let same : (b : Bool) (p : String) → side_book b p r ≡ side_book b p k =
      side_book-same k r refl refl in
    let it : (b : Bool) (p : String) (l : Listed k b p id) → l.order ≡ o =
      λ b p l. some_eq (sym l.found ∙ found) in
    record {
      stored = ap (λ d. lookup id d) eo ∙ lookup-insert_self id c k.orders;
      gone = refl;
      off =
          remove_from_book-each_book (λ b p book. NotIn id book) c r
            (subst (λ book. NotIn id (erase_first o.id book)) (sym (same (is_buy o.side) o.pair_id))
              (NotIn-erased k (is_buy o.side) o.pair_id id o (side_book (is_buy o.side) o.pair_id k)
                (v.books (is_buy o.side) o.pair_id) found))
            (λ b p differ. subst (NotIn id) (sym (same b p)) (
              NotIn-unlisted k b p id (side_book b p k) (v.books b p) (λ l. elim differ [
                | inl ne ↦ ne (sym l.side ∙ ap (λ x. is_buy x.side) (it b p l))
                | inr ne ↦ ne (sym l.of_pair ∙ ap (λ x. x.pair_id) (it b p l))
              ])));
    }
