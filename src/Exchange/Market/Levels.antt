-- ===== src/Exchange/Market/Levels.antt =====
-- The levels that the loop of GetOrderBook collects: what they hold, and that each price has one.
use ftg_chain.Base.{
  ℕ, ◌<◌, ◌≡◌, ◌≢◌, ◌⊎◌, subst, refl, sym, ap, ◌∙◌, inl, inr, Bool, true, none, some, List, [], ◌∷◌,
  String, ◌==◌, arith, some_eq, Bool-cases, Option-cases,
}
use ftg_chain.Base.Word.{word, add64, slt}
use ftg_chain.Base.Dict.{Dict, lookup}
use ftg_chain.Base.Lists.{length, All, insert_by, sort_onto}
use ftg_chain.Base.Sorting.{Compare, Comparable}
use ftg_chain.Exchange.Types.{Order}
use ftg_chain.Exchange.Market.{OrderBookLevel, add_level, add_levels}

-- What all levels hold together.
abbrev pub level_total : List OrderBookLevel → ℕ
level_total [] = 0
level_total (l ∷ ls) = add64 l.quantity (level_total ls)

abbrev pub level_orders : List OrderBookLevel → ℕ
level_orders [] = 0
level_orders (l ∷ ls) = add64 l.orders (level_orders ls)

-- What remains of the orders of a book.
abbrev pub remaining_total : Dict Order → List String → ℕ
remaining_total orders [] = 0
remaining_total orders (id ∷ ids) =
    add64 (elim (lookup id orders) [ none ↦ 0 | some o ↦ o.remaining_qty ])
      (remaining_total orders ids)

add_level-total :
    (o : Order) (ls : List OrderBookLevel)
    → level_total (add_level o ls) ≡ add64 (level_total ls) o.remaining_qty
unfolding add_level add64
add_level-total o [] = omega arith
add_level-total o (l ∷ ls) = ground (arith, add_level-total o ls)

add_level-orders :
    (o : Order) (ls : List OrderBookLevel)
    → level_orders (add_level o ls) ≡ add64 (level_orders ls) 1
unfolding add_level add64
add_level-orders o [] = omega arith
add_level-orders o (l ∷ ls) = ground (arith, add_level-orders o ls)

pub level_total_lt : (ls : List OrderBookLevel) → level_total ls < word
unfolding add64
level_total_lt [] = omega arith
level_total_lt (l ∷ ls) = omega arith

pub level_orders_lt : (ls : List OrderBookLevel) → level_orders ls < word
unfolding add64
level_orders_lt [] = omega arith
level_orders_lt (l ∷ ls) = omega arith

pub remaining_total_lt :
    (orders : Dict Order) (ids : List String) → remaining_total orders ids < word
unfolding add64
remaining_total_lt orders [] = omega arith
remaining_total_lt orders (id ∷ ids) = omega arith

pub add_levels-totals :
    (orders : Dict Order) (ids : List String) (ls ls' : List OrderBookLevel)
    → add_levels orders ids ls ≡ some ls'
    → (level_total ls' ≡ add64 (level_total ls) (remaining_total orders ids))
      × (level_orders ls' ≡ add64 (level_orders ls) (length ids))
unfolding add_levels add64
add_levels-totals orders [] ls ls' e =
    let s : ls ≡ ls' = some_eq e in
    (
      ap level_total (sym s) ∙ omega (arith, level_total_lt ls),
      ap level_orders (sym s) ∙ omega (arith, level_orders_lt ls),
    )
add_levels-totals orders (id ∷ ids) ls ls' e = elim (Option-cases (lookup id orders)) [
  | inl missing ↦ absurd (ground (arith, missing))
  | inr (o, found) ↦
      let (t, n) =
        add_levels-totals orders ids (add_level o ls) ls' (rw (found, add_levels) at e) in
      (rw found (omega (arith, t, add_level-total o ls)), omega (arith, n, add_level-orders o ls))
]

pub insert_by-totals :
    (less : OrderBookLevel → OrderBookLevel → Bool) (l : OrderBookLevel) (ls : List OrderBookLevel)
    → (level_total (insert_by less l ls) ≡ add64 l.quantity (level_total ls))
      × (level_orders (insert_by less l ls) ≡ add64 l.orders (level_orders ls))
unfolding insert_by add64
insert_by-totals less l [] = (refl, refl)
insert_by-totals less l (m ∷ ms) =
    let (t, n) = insert_by-totals less l ms in (ground (arith, t), ground (arith, n))

pub sort_onto-totals :
    (less : OrderBookLevel → OrderBookLevel → Bool) (ls ms : List OrderBookLevel)
    → (add64 (level_total (sort_onto less ls ms)) 0 ≡ add64 (level_total ls) (level_total ms))
      × (add64 (level_orders (sort_onto less ls ms)) 0 ≡ add64 (level_orders ls) (level_orders ms))
unfolding sort_onto add64
sort_onto-totals less [] ms = (omega arith, omega arith)
sort_onto-totals less (l ∷ ls) ms =
    let (t, n) = sort_onto-totals less ls (insert_by less l ms) in
    let (t', n') = insert_by-totals less l ms in (omega (arith, t, t'), omega (arith, n, n'))

-- No two levels have one price.
abbrev pub OneEach : List OrderBookLevel → Type 0
OneEach [] = Unit
OneEach (l ∷ ls) = All (λ m. l.price ≢ m.price) ls × OneEach ls

add_level-All :
    (P : ℕ → Type 0) (o : Order) (ls : List OrderBookLevel)
    → P o.price
    → All (λ l. P l.price) ls
    → All (λ l. P l.price) (add_level o ls)
unfolding add_level
add_level-All P o [] h hs = (h, tt)
add_level-All P o (l ∷ ls) h (hl, hs) = elim (Bool-cases (l.price == o.price)) [
  | inl same ↦ rw same (hl, hs)
  | inr other ↦ rw other (hl, add_level-All P o ls h hs)
]

add_level-OneEach : (o : Order) (ls : List OrderBookLevel) → OneEach ls → OneEach (add_level o ls)
unfolding add_level
add_level-OneEach o [] h = (tt, tt)
add_level-OneEach o (l ∷ ls) (h, hs) = elim (Bool-cases (l.price == o.price)) [
  | inl same ↦ rw same (h, hs)
  | inr other ↦
      rw other (add_level-All (λ p. l.price ≢ p) o ls (ground arith) h, add_level-OneEach o ls hs)
]

pub add_levels-OneEach :
    (orders : Dict Order) (ids : List String) (ls ls' : List OrderBookLevel)
    → add_levels orders ids ls ≡ some ls'
    → OneEach ls
    → OneEach ls'
unfolding add_levels
add_levels-OneEach orders [] ls ls' e h = subst OneEach (some_eq e) h
add_levels-OneEach orders (id ∷ ids) ls ls' e h = elim (Option-cases (lookup id orders)) [
  | inl missing ↦ absurd (ground (arith, missing))
  | inr (o, found) ↦
      add_levels-OneEach orders ids (add_level o ls) ls' (rw (found, add_levels) at e)
        (add_level-OneEach o ls h)
]

-- Every price of the levels has a property that the prices of the orders have.
pub add_levels-All :
    (P : ℕ → Type 0) (orders : Dict Order) (ids : List String) (ls ls' : List OrderBookLevel)
    → ((id : String) (o : Order) → lookup id orders ≡ some o → P o.price)
    → add_levels orders ids ls ≡ some ls'
    → All (λ l. P l.price) ls
    → All (λ l. P l.price) ls'
unfolding add_levels
add_levels-All P orders [] ls ls' h e a = subst (All (λ l. P l.price)) (some_eq e) a
add_levels-All P orders (id ∷ ids) ls ls' h e a = elim (Option-cases (lookup id orders)) [
  | inl missing ↦ absurd (ground (arith, missing))
  | inr (o, found) ↦
      add_levels-All P orders ids (add_level o ls) ls' h (rw (found, add_levels) at e)
        (add_level-All P o ls (h id o found) a)
]

pub slt-connex : (a b : ℕ) → a < word → b < word → a ≢ b → (slt a b ≡ true) ⊎ (slt b a ≡ true)
slt-connex a b ha hb ne = ground arith

pub slt_trans : (a b c : ℕ) → slt a b ≡ true → slt b c ≡ true → slt a c ≡ true
slt_trans a b c h g = ground arith

pub compares :
    (less : OrderBookLevel → OrderBookLevel → Bool) (ls : List OrderBookLevel)
    → ((l m : OrderBookLevel)
        → l.price < word
        → m.price < word
        → l.price ≢ m.price
        → Compare less l m)
    → All (λ l. l.price < word) ls
    → OneEach ls
    → Comparable less ls
compares less [] c small one = tt
compares less (l ∷ ls) c (hl, small) (h, one) = (each ls small h, compares less ls c small one)
  where
    each :
        (ms : List OrderBookLevel)
        → All (λ m. m.price < word) ms
        → All (λ m. l.price ≢ m.price) ms
        → All (λ m. Compare less l m) ms
    each [] s d = tt
    each (m ∷ ms) (hm, s) (ne, d) = (c l m hl hm ne, each ms s d)
