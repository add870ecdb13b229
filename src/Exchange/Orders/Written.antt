-- ===== src/Exchange/Orders/Written.antt =====
-- The books of a state in which one order or one book is written.
use ftg_chain.Base.{
  subst, ◌≡◌, ◌≢◌, ◌⊎◌, refl, sym, inl, inr, Bool, true, false, not, List, [], ◌∷◌, ◌++◌, String,
  arith, str_eq, eq_iff, Bool-cases, ne_of_eq_false,
}
use ftg_chain.Base.Word.{slt}
use ftg_chain.Base.Dict.{insert, lookup-insert_self, lookup-insert_ne}
use ftg_chain.Base.Lists.{sort_slice}
use ftg_chain.Base.Time.{Time}
use ftg_chain.Exchange.Types.{Keeper, is_buy, is_limit}
use ftg_chain.Exchange.Matching.{Matched, close_match, book_of}
use ftg_chain.Exchange.Orders.{rest_on_book, price_of}
use ftg_chain.Exchange.Orders.Sound.{side_book}

abbrev pub write_book : Bool → String → List String → Keeper → Keeper
write_book true p book k = record k { buy_book = insert p book k.buy_book }
write_book false p book k = record k { sell_book = insert p book k.sell_book }

-- It writes that book and nothing else.
pub write_book-keeps :
    (b : Bool) (p : String) (book : List String) (k : Keeper)
    → ((write_book b p book k).orders ≡ k.orders)
      × ((write_book b p book k).wallets ≡ k.wallets)
      × ((write_book b p book k).pairs ≡ k.pairs)
      × ((write_book b p book k).kyc_apps ≡ k.kyc_apps)
      × ((write_book b p book k).order_seq ≡ k.order_seq)
write_book-keeps true p book k = (refl, refl, refl, refl, refl)
write_book-keeps false p book k = (refl, refl, refl, refl, refl)

pub side_book-write_book :
    (b : Bool) (p : String) (book : List String) (k : Keeper)
    → side_book b p (write_book b p book k) ≡ book
side_book-write_book true p book k = rw (lookup-insert_self p book k.buy_book, book_of) refl
side_book-write_book false p book k = rw (lookup-insert_self p book k.sell_book, book_of) refl

pub side_book-write_book_other :
    (b b' : Bool) (p p' : String) (book : List String) (k : Keeper)
    → (b ≢ b') ⊎ (p ≢ p')
    → side_book b p (write_book b' p' book k) ≡ side_book b p k
side_book-write_book_other true true p p' book k (inl ne) = absurd (ne refl)
side_book-write_book_other false false p p' book k (inl ne) = absurd (ne refl)
side_book-write_book_other true false p p' book k differ = refl
side_book-write_book_other false true p p' book k differ = refl
side_book-write_book_other true true p p' book k (inr ne) =
    rw (lookup-insert_ne p' p book k.buy_book (λ s. ne (sym s)), book_of) refl
side_book-write_book_other false false p p' book k (inr ne) =
    rw (lookup-insert_ne p' p book k.sell_book (λ s. ne (sym s)), book_of) refl

-- Two books are the same one, or of different sides or pairs.
pub same_book : (b b' : Bool) (p p' : String) → ((b ≡ b') × (p ≡ p')) ⊎ ((b ≢ b') ⊎ (p ≢ p'))
same_book b b' p p' = elim (Bool-cases (str_eq p p')) [
  | inr other ↦ inr (inr (ne_of_eq_false p p' other))
  | inl same ↦ sides b b' ((eq_iff p p').0 same)
]
  where
    sides : (c c' : Bool) → p ≡ p' → ((c ≡ c') × (p ≡ p')) ⊎ ((c ≢ c') ⊎ (p ≢ p'))
    sides true true s = inl (refl, s)
    sides false false s = inl (refl, s)
    sides true false s = inr (inl (λ e. cc))
    sides false true s = inr (inl (λ e. cc))

-- A property of books and their places that holds of the new book and of the others holds of all.
pub each_book :
    (P : Bool → String → List String → Type 0) (b' : Bool) (p' : String) (book : List String)
    (k : Keeper)
    → P b' p' book
    → ((b : Bool) (p : String) → (b ≢ b') ⊎ (p ≢ p') → P b p (side_book b p k))
    → (b : Bool) (p : String) → P b p (side_book b p (write_book b' p' book k))
each_book P b' p' book k new others b p = elim (same_book b b' p p') [
  | inl (sb, sp) ↦
      subst (λ c. P c p (side_book c p (write_book b' p' book k))) (sym sb)
        (subst (λ q. P b' q (side_book b' q (write_book b' p' book k))) (sym sp)
          (subst (P b' p') (sym (side_book-write_book b' p' book k)) new))
  | inr differ ↦
      subst (P b p) (sym (side_book-write_book_other b b' p p' book k differ)) (others b p differ)
]

-- The keeper that closes a match: the taker's order is stored, and the opposite book is written.
pub close_match-write_book :
    (now : Time) (m : Matched)
    → let o = (close_match now m).order in
      (close_match now m).keeper
      ≡ write_book
          (not (is_buy o.side))
          o.pair_id
          m.book
          (record m.keeper { orders = insert o.id o m.keeper.orders })
unfolding close_match
close_match-write_book now m = elim (Bool-cases (is_buy m.order.side)) [
  | inl buys ↦ rw buys refl
  | inr sells ↦ rw sells refl
]

-- The keeper after a rest is put on the book, where there is one.
pub rest_on_book-cases :
    (m : Matched)
    → (rest_on_book m ≡ m.keeper)
      ⊎ ((slt 0 m.order.remaining_qty ≡ true)
          × ((less : String → String → Bool) × (rest_on_book m
                ≡ write_book
                    (is_buy m.order.side)
                    m.order.pair_id
                    (sort_slice less
                      (side_book (is_buy m.order.side) m.order.pair_id m.keeper ++ m.order.id ∷ []))
                    m.keeper)))
unfolding rest_on_book
rest_on_book-cases m = elim (Bool-cases (slt 0 m.order.remaining_qty)) [
  | inr full ↦ inl (rw full refl)
  | inl left ↦ elim (Bool-cases (is_limit m.order.order_type)) [
    | inr market ↦ inl (rw (left, market) refl)
    | inl rests ↦ elim (Bool-cases (is_buy m.order.side)) [
      | inl buys ↦ inr (
        left,
        (
          λ i j. slt (price_of m.keeper.orders j) (price_of m.keeper.orders i),
          rw (left, rests, buys) refl,
        ),
      )
      | inr sells ↦ inr (
        left,
        (
          λ i j. slt (price_of m.keeper.orders i) (price_of m.keeper.orders j),
          rw (left, rests, sells) refl,
        ),
      )
    ]
  ]
]

pub rest_on_book-keeps :
    (m : Matched)
    → ((rest_on_book m).orders ≡ m.keeper.orders)
      × ((rest_on_book m).wallets ≡ m.keeper.wallets)
      × ((rest_on_book m).pairs ≡ m.keeper.pairs)
      × ((rest_on_book m).kyc_apps ≡ m.keeper.kyc_apps)
      × ((rest_on_book m).order_seq ≡ m.keeper.order_seq)
unfolding rest_on_book
rest_on_book-keeps m = ground arith
