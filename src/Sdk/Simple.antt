-- ===== src/Sdk/Simple.antt =====
-- Numbers and a bank that obey the laws: integers with a sign, and balances as a function.
use mathlib.Core.Option.{none-ne-some}
use ftg_chain.Base.{
  ℕ, ◌+◌, ◌-◌, ◌*◌, ◌/◌, ◌^◌, ◌≤◌, ◌≡◌, refl, sym, ap, ◌∙◌, ◌≢◌, inl, inr, Bool, true, false, ◌&&◌,
  Option, none, some, some_eq, String, arith, str_eq, eq_iff, ltb, leb, if◌then◌else◌, Bool-cases,
  eq_false_of_ne, subst,
}
use ftg_chain.Sdk.Numbers.{Numbers, IsNumbers}
use ftg_chain.Sdk.Bank.{Bank, IsBank}
use ftg_chain.Sdk.Supply.{Supply}
use ftg_chain.Sdk.MintBank.{MintBank}

pub data Amount : Type 0 where
  positive negative : ℕ → Amount

abbrev pub value : Amount → Option ℕ
value (positive n) = some n
value (negative n) = none

abbrev amount_lt : Amount → Amount → Bool
amount_lt (positive a) (positive b) = ltb a b
amount_lt (positive a) (negative b) = false
amount_lt (negative a) (positive b) = true
amount_lt (negative a) (negative b) = ltb b a

abbrev amount_add : Amount → Amount → Amount
amount_add (positive a) (positive b) = positive (a + b)
amount_add (positive a) (negative b) = if leb b a then positive (a - b) else negative (b - a)
amount_add (negative a) (positive b) = if leb a b then positive (b - a) else negative (a - b)
amount_add (negative a) (negative b) = negative (a + b)

abbrev amount_quo : Amount → Amount → Amount
amount_quo (positive a) (positive b) = positive (a / b)
amount_quo (positive a) (negative b) = negative (a / b)
amount_quo (negative a) (positive b) = negative (a / b)
amount_quo (negative a) (negative b) = positive (a / b)

abbrev product : ℕ → Amount → Option ℕ
product d (positive n) = some (d * n)
product d (negative n) = none

abbrev quotient : ℕ → Amount → ℕ
quotient d (positive n) = d / n
quotient d (negative n) = 0

abbrev pub numbers : Numbers Amount ℕ
numbers = record {
  nil_int = positive 0;
  nil_dec = 0;
  new_int = positive;
  int_lt = amount_lt;
  int_add = λ a b. some (amount_add a b);
  int_quo = amount_quo;
  new_dec_with_prec = λ i prec. i / 10 ^ prec;
  dec_lt = ltb;
  mul_int64 = λ d n. some (d * n);
  truncate_int = λ d. some (positive d);
  dec_add = λ a b. some (a + b);
  mul_int = product;
  quo_int = quotient;
}

pub lt-value :
    (a b : Amount) (x y : ℕ) → value a ≡ some x → value b ≡ some y → amount_lt a b ≡ ltb x y
lt-value (positive a) (positive b) x y e f = ap (λ n. ltb n b) (some_eq e) ∙ ap (ltb x) (some_eq f)
lt-value (negative a) b x y e f = absurd (none-ne-some x e)
lt-value (positive a) (negative b) x y e f = absurd (none-ne-some y f)

pub lt-negative : (a b : Amount) (y : ℕ) → value a ≡ none → value b ≡ some y → amount_lt a b ≡ true
lt-negative (positive a) b y e f = absurd (none-ne-some a (sym e))
lt-negative (negative a) (positive b) y e f = refl
lt-negative (negative a) (negative b) y e f = absurd (none-ne-some y f)

abbrev pub numbers-IsNumbers : IsNumbers numbers
numbers-IsNumbers = record {
  read = value;
  read-new_int = λ n h. refl;
  int_lt-read = lt-value;
  int_lt-negative = lt-negative;
}

abbrev pub Balances : Type 0
Balances = String → String → ℕ

unfoldable pub put : String → String → ℕ → Balances → Balances
put a d n s a' d' = if str_eq a a' && str_eq d d' then n else s a' d'

unfoldable pub move : String → String → String → ℕ → Balances → Balances
unfolding put
move from to d n s = let paid = put from d (s from d - n) s in put to d (paid to d + n) paid

unfoldable pub send : String → String → String → Amount → Balances → Option Balances
unfolding move
send from to d (negative n) s = none
send from to d (positive n) s = if leb n (s from d) then some (move from to d n s) else none

put-same : (a d : String) (n : ℕ) (s : Balances) → put a d n s a d ≡ n
unfolding put
put-same a d n s = ground (arith, eq_iff a a, eq_iff d d)

put-other : (a d a' : String) (n : ℕ) (s : Balances) → a ≢ a' → put a d n s a' d ≡ s a' d
unfolding put
put-other a d a' n s h = rw (eq_false_of_ne a a' h) refl

-- What a transfer that was made did.
pub send-moved :
    (from to d : String) (i : Amount) (n : ℕ) (s s' : Balances)
    → value i ≡ some n
    → send from to d i s ≡ some s'
    → (n ≤ s from d) × (move from to d n s ≡ s')
unfolding send
send-moved from to d (negative k) n s s' r e = absurd (none-ne-some n r)
send-moved from to d (positive k) n s s' r e = elim (Bool-cases (leb k (s from d))) [
  | inr short ↦ absurd (none-ne-some s' (rw (send, short) at e))
  | inl enough ↦
      let same : k ≡ n = some_eq r in
      (
        subst (λ q. q ≤ s from d) same (ground arith),
        subst (λ q. move from to d q s ≡ s') same (some_eq (rw (send, enough) at e)),
      )
]

abbrev pub bank : Bank Balances Amount
bank = record { get_balance = λ s a d. positive (s a d); send_coins = send }

pub send-negative :
    (from to d : String) (i : Amount) (s : Balances) → value i ≡ none → send from to d i s ≡ none
unfolding send
send-negative from to d (negative k) s e = refl
send-negative from to d (positive k) s e = absurd (none-ne-some k (sym e))

pub send-enough :
    (from to d : String) (i : Amount) (n : ℕ) (s : Balances)
    → value i ≡ some n
    → n ≤ s from d
    → (s' : Balances) × (send from to d i s ≡ some s')
unfolding send
send-enough from to d (negative k) n s r h = absurd (none-ne-some n r)
send-enough from to d (positive k) n s r h =
    let same : k ≡ n = some_eq r in
    let enough : leb k (s from d) ≡ true = ground (arith, same) in
    (move from to d k s, rw (send, enough) refl)

pub move-held :
    (from to d : String) (n : ℕ) (s : Balances)
    → n ≤ s from d
    → from ≢ to
    → (move from to d n s from d + n ≡ s from d) × (move from to d n s to d ≡ s to d + n)
unfolding move
move-held from to d n s h apart =
    let paid = put from d (s from d - n) s in
    let got = put-same to d (paid to d + n) paid in
    let before = put-other from d to (s from d - n) s apart in
    let gave = put-other to d from (paid to d + n) paid (λ e. apart (sym e)) in
    let left = put-same from d (s from d - n) s in (omega arith, omega arith)

pub move_self : (a d : String) (n : ℕ) (s : Balances) → n ≤ s a d → move a a d n s a d ≡ s a d
unfolding move
move_self a d n s h =
    let paid = put a d (s a d - n) s in
    let got = put-same a d (paid a d + n) paid in
    let left = put-same a d (s a d - n) s in omega arith

pub move-other :
    (from to d a : String) (n : ℕ) (s : Balances)
    → a ≢ from
    → a ≢ to
    → move from to d n s a d ≡ s a d
unfolding move
move-other from to d a n s f g =
    let paid = put from d (s from d - n) s in
    put-other to d a (paid to d + n) paid (λ e. g (sym e))
    ∙ put-other from d a (s from d - n) s (λ e. f (sym e))

abbrev pub bank-IsBank : IsBank value bank
bank-IsBank = record {
  held = λ s a d. s a d;
  get_balance-held = λ s a d. refl;
  send_coins-negative = send-negative;
  send_coins-enough = send-enough;
  send_coins-held = λ from to d i n s s' r e apart.
      let (h, moved) = send-moved from to d i n s s' r e in
      subst (λ q. (q from d + n ≡ s from d) × (q to d ≡ s to d + n)) moved
        (move-held from to d n s h apart);
  send_coins-self = λ a d i n s s' r e.
      let (h, moved) = send-moved a a d i n s s' r e in
      subst (λ q. q a d ≡ s a d) moved (move_self a d n s h);
  send_coins-other = λ from to d a i n s s' r e f g.
      let (h, moved) = send-moved from to d i n s s' r e in
      subst (λ q. q a d ≡ s a d) moved (move-other from to d a n s f g);
}

-- The same balances as the bank of a module that burns.
unfoldable pub destroy : String → String → Amount → Balances → Option Balances
unfolding put
destroy a d (negative n) s = none
destroy a d (positive n) s = if leb n (s a d) then some (put a d (s a d - n) s) else none

abbrev pub supply : Supply Balances Amount
supply = record {
  get_balance = λ s a d. positive (s a d);
  send_to_module = send;
  burn_coins = destroy;
}

-- The same balances as the bank of a module that mints.
unfoldable pub create : String → String → Amount → Balances → Option Balances
unfolding put
create a d (negative n) s = none
create a d (positive n) s = some (put a d (s a d + n) s)

abbrev pub mint_bank : MintBank Balances Amount
mint_bank = record { mint_coins = create; send_from_module = send }
