-- ===== src/Sdk/Numbers.antt =====
-- cosmossdk.io/math: the operations of Int and LegacyDec that the modules call, and what they do to
-- values that are not negative. A LegacyDec counts units of 10 ^ -18, and `none` is the panic of a
-- result beyond the range.
use ftg_chain.Base.{ℕ, ◌<◌, ◌≡◌, Bool, true, Option, none, some, ltb}
use ftg_chain.Base.Word.{half}

pub record Numbers (Int Decimal : Type 0) : Type 0 where
  pub nil_int : Int
  pub nil_dec : Decimal
  pub new_int : ℕ → Int
  pub int_lt : Int → Int → Bool
  pub int_add : Int → Int → Option Int
  pub int_quo : Int → Int → Int
  pub new_dec_with_prec : ℕ → ℕ → Decimal
  pub dec_lt : Decimal → Decimal → Bool
  pub mul_int64 : Decimal → ℕ → Option Decimal
  pub truncate_int : Decimal → Option Int
  pub dec_add : Decimal → Decimal → Option Decimal
  pub mul_int : Decimal → Int → Option Decimal
  pub quo_int : Decimal → Int → Decimal

-- `read` is the value of an Int that is not negative.
pub record IsNumbers {Int Decimal : Type 0} (m : Numbers Int Decimal) : Type 0 where
  pub read : Int → Option ℕ
  pub read-new_int : (n : ℕ) → n < half → read (m.new_int n) ≡ some n
  pub int_lt-read :
      (a b : Int) (x y : ℕ) → read a ≡ some x → read b ≡ some y → m.int_lt a b ≡ ltb x y
  pub int_lt-negative : (a b : Int) (y : ℕ) → read a ≡ none → read b ≡ some y → m.int_lt a b ≡ true
