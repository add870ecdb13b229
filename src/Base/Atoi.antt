-- ===== src/Base/Atoi.antt =====
-- `strconv.Atoi`: the number that a decimal text stands for, as an int64 word, or `none` where Go
-- returns an error.
use Prim.Native.Char.{code}
use ftg_chain.Base.{
  ℕ, ◌+◌, ◌-◌, ◌*◌, ◌≡◌, refl, Option, none, some, String, ◌&&◌, ltb, leb, ◌==◌, if◌then◌else◌,
}
use ftg_chain.Base.Word.{half, word, neg64}

-- The value of a text of digits, on from a value.
unfoldable pub digits_value : ℕ → String → Option ℕ
digits_value a String.[] = some a
digits_value a (String.◌∷◌ c s) =
    if leb 48 (code c) && leb (code c) 57 then digits_value (a * 10 + (code c - 48)) s else none

-- At least one digit, and a value below a bound.
unfoldable pub magnitude : ℕ → String → Option ℕ
unfolding digits_value
magnitude bound String.[] = none
magnitude bound (String.◌∷◌ c s) = elim (digits_value 0 (String.◌∷◌ c s)) [
  | none ↦ none
  | some n ↦ if ltb n bound then some n else none
]

unfoldable pub atoi : String → Option ℕ
unfolding magnitude neg64
atoi String.[] = none
atoi (String.◌∷◌ c s) =
    if code c == 45
    then elim (magnitude (half + 1) s) [ none ↦ none | some n ↦ some (neg64 n) ]
    else if code c == 43
    then magnitude half s
    else magnitude half (String.◌∷◌ c s)

reads : atoi "250" ≡ some 250
unfolding atoi
reads = refl

reads_sign : atoi "-20" ≡ some (word - 20)
unfolding atoi
reads_sign = refl

refuses : atoi "12a" ≡ none
unfolding atoi
refuses = refl

refuses_empty : atoi "+" ≡ none
unfolding atoi
refuses_empty = refl

refuses_large : atoi "9223372036854775808" ≡ none
unfolding atoi
refuses_large = refl
