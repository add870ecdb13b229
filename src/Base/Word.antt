-- ===== src/Base/Word.antt =====
-- Go's int64 and uint64. A word is its bit pattern, a number below 2 ^ 64; a signed word reads a
-- pattern from 2 ^ 63 on as itself less 2 ^ 64. Addition, subtraction and multiplication are those
-- of the patterns and wrap; order and division look at the sign.
use ftg_chain.Base.{
  ℕ, ◌+◌, ◌-◌, ◌*◌, ◌/◌, ◌%◌, ◌≤◌, ◌<◌, ◌≡◌, refl, Bool, true, false, arith, ltb, leb,
  if◌then◌else◌,
}

abbrev pub word : ℕ
word = 18446744073709551616

-- 2 ^ 63: the patterns from here on are negative.
abbrev pub half : ℕ
half = 9223372036854775808

unfoldable pub add64 : ℕ → ℕ → ℕ
add64 a b = (a + b) % word

unfoldable pub sub64 : ℕ → ℕ → ℕ
sub64 a b = (a + (word - b % word)) % word

unfoldable pub mul64 : ℕ → ℕ → ℕ
mul64 a b = (a * b) % word

abbrev pub is_negative : ℕ → Bool
is_negative a = leb half a

-- `a < b` and `a <= b` of signed words: moved up by 2 ^ 63, their order is that of the patterns.
abbrev pub biased : ℕ → ℕ
biased a = (a + half) % word

abbrev pub slt : ℕ → ℕ → Bool
slt a b = ltb (biased a) (biased b)

abbrev pub sle : ℕ → ℕ → Bool
sle a b = leb (biased a) (biased b)

-- `-a`
unfoldable pub neg64 : ℕ → ℕ
neg64 a = (word - a % word) % word

-- `a / b` of signed words, which rounds towards zero. (A zero divisor panics in Go: no call of the
-- program has one.)
unfoldable pub div64 : ℕ → ℕ → ℕ
unfolding neg64
div64 a b =
    if is_negative a
    then (if is_negative b then neg64 a / neg64 b else neg64 (neg64 a / b))
    else (if is_negative b then neg64 (a / neg64 b) else a / b)

-- A signed word that is not negative.
abbrev pub IsNat63 : ℕ → Type 0
IsNat63 a = a < half

pub is_negative_nat : (a : ℕ) → IsNat63 a → is_negative a ≡ false
is_negative_nat a h = ground arith

-- Words that are not negative are ordered as numbers.
pub slt_nat : (a b : ℕ) → IsNat63 a → IsNat63 b → slt a b ≡ ltb a b
slt_nat a b ha hb = ground arith

pub add64_nat : (a b : ℕ) → a + b < word → add64 a b ≡ a + b
unfolding add64
add64_nat a b h = omega arith

pub sub64_nat : (a b : ℕ) → b ≤ a → a < word → sub64 a b ≡ a - b
unfolding sub64
sub64_nat a b h k = omega arith

pub mul64_nat : (a b : ℕ) → a * b < word → mul64 a b ≡ a * b
unfolding mul64
mul64_nat a b h = omega arith

pub div64_nat : (a b : ℕ) → IsNat63 a → IsNat63 b → div64 a b ≡ a / b
unfolding div64
div64_nat a b ha hb = ground arith

pub add64_lt : (a b : ℕ) → add64 a b < word
unfolding add64
add64_lt a b = omega arith

pub sub64_lt : (a b : ℕ) → sub64 a b < word
unfolding sub64
sub64_lt a b = omega arith

pub add64_comm : (a b : ℕ) → add64 a b ≡ add64 b a
unfolding add64
add64_comm a b = omega arith

pub add64_assoc : (a b c : ℕ) → add64 (add64 a b) c ≡ add64 a (add64 b c)
unfolding add64
add64_assoc a b c = omega arith

pub add64-sub64 : (a b : ℕ) → a < word → sub64 (add64 a b) b ≡ a
unfolding add64 sub64
add64-sub64 a b h = omega arith

wraps : add64 (half - 1) 1 ≡ half
unfolding add64
wraps = refl

-- -7 / 2 is -3.
rounds_to_zero : div64 (neg64 7) 2 ≡ neg64 3
unfolding div64
rounds_to_zero = refl

minus_one_below_one : slt (word - 1) 1 ≡ true
minus_one_below_one = refl
