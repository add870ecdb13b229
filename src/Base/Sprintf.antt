-- ===== src/Base/Sprintf.antt =====
-- `fmt.Sprintf("PREFIX%06d", n)`, by which every keeper makes its identifiers.
use native.Mathlib.Nat.{pow-suc}
use text.Mathlib.TextLemmas.{append_cancel_left, nil-append, cons-append}
use Prim.Native.Char.{code}
use Prim.Native.String.{◌++◌ as ◌<>◌}
use ftg_chain.Base.{
  ℕ, zero, suc, ◌+◌, ◌-◌, ◌*◌, ◌/◌, ◌%◌, ◌^◌, ◌<◌, ◌≡◌, refl, ◌≢◌, ap, sym, ◌∙◌, ◌&&◌, String,
  arith, ◌==◌, if◌then◌else◌, Bool-cases, inl, inr,
}
use ftg_chain.Base.Word.{word, IsNat63, is_negative, is_negative_nat, neg64}

digit : ℕ → String
digit zero = "0"
digit (suc zero) = "1"
digit (suc (suc zero)) = "2"
digit (suc (suc (suc zero))) = "3"
digit (suc (suc (suc (suc zero)))) = "4"
digit (suc (suc (suc (suc (suc zero))))) = "5"
digit (suc (suc (suc (suc (suc (suc zero)))))) = "6"
digit (suc (suc (suc (suc (suc (suc (suc zero))))))) = "7"
digit (suc (suc (suc (suc (suc (suc (suc (suc zero)))))))) = "8"
digit _ = "9"

-- The decimal digits of a number, with zeros in front up to a width. The first argument bounds the
-- digits: a word has 20 at most.
digits : ℕ → ℕ → ℕ → String
digits zero width n = ""
digits (suc f) width n =
    let front = digits f (width - 1) (n / 10) in
    if n == 0 && width == 0 then "" else front <> digit (n % 10)

-- `%0Wd` of an int64: the sign counts towards the width.
unfoldable pub pad : ℕ → ℕ → String
unfolding digits digit neg64
pad width n = if is_negative n then "-" <> digits 20 (width - 1) (neg64 n) else digits 20 width n

unfoldable pub sprintf : String → ℕ → ℕ → String
unfolding pad
sprintf prefix width n = prefix <> pad width n

-- The number that a text of digits stands for, read from the left.
value : ℕ → String → ℕ
value a String.[] = a
value a (String.◌∷◌ c s) = value (a * 10 + (code c - 48)) s

value-append : (a : ℕ) (s t : String) → value a (s <> t) ≡ value (value a s) t
unfolding value
value-append a String.[] t = rw (nil-append t)
value-append a (String.◌∷◌ c s) t =
    rw (cons-append c s t) (value-append (a * 10 + (code c - 48)) s t)

value-digit : (a d : ℕ) → d < 10 → value a (digit d) ≡ a * 10 + d
unfolding value digit
value-digit a zero h = omega arith
value-digit a (suc zero) h = omega arith
value-digit a (suc (suc zero)) h = omega arith
value-digit a (suc (suc (suc zero))) h = omega arith
value-digit a (suc (suc (suc (suc zero)))) h = omega arith
value-digit a (suc (suc (suc (suc (suc zero))))) h = omega arith
value-digit a (suc (suc (suc (suc (suc (suc zero)))))) h = omega arith
value-digit a (suc (suc (suc (suc (suc (suc (suc zero))))))) h = omega arith
value-digit a (suc (suc (suc (suc (suc (suc (suc (suc zero)))))))) h = omega arith
value-digit a (suc (suc (suc (suc (suc (suc (suc (suc (suc zero))))))))) h = omega arith
value-digit a (suc (suc (suc (suc (suc (suc (suc (suc (suc (suc d)))))))))) h = absurd (omega arith)

tenth-lt : (f n : ℕ) → n < 10 ^ suc f → n / 10 < 10 ^ f
tenth-lt f n h = let k : n < 10 ^ f * 10 = rw (pow-suc 10 f) at h in omega arith

-- Reading the digits back gives the number.
value-digits : (f width n : ℕ) → n < 10 ^ f → value 0 (digits f width n) ≡ n
unfolding digits
value-digits zero width n h = unfold value in omega arith
value-digits (suc f) width n h = elim (Bool-cases (n == 0 && width == 0)) [
  | inl done ↦ rw done (unfold value in ground arith)
  | inr more ↦
      rw (more, value-append 0 (digits f (width - 1) (n / 10)) (digit (n % 10)))
        (ap (λ a. value a (digit (n % 10))) (value-digits f (width - 1) (n / 10) (tenth-lt f n h))
          ∙ value-digit (n / 10) (n % 10) (omega arith)
          ∙ omega arith)
]

digits-injective :
    (f width m n : ℕ) → m < 10 ^ f → n < 10 ^ f → digits f width m ≡ digits f width n → m ≡ n
digits-injective f width m n hm hn e =
    sym (value-digits f width m hm) ∙ ap (value 0) e ∙ value-digits f width n hn

-- Two numbers that are not negative have different identifiers.
pub sprintf-injective :
    (prefix : String) (width m n : ℕ)
    → IsNat63 m
    → IsNat63 n
    → sprintf prefix width m ≡ sprintf prefix width n
    → m ≡ n
unfolding sprintf
sprintf-injective prefix width m n hm hn e =
    digits-injective 20 width m n (omega arith) (omega arith) (
      rw (is_negative_nat n hn) at
        (rw (is_negative_nat m hm) at (append_cancel_left prefix (pad width m) (pad width n) e)))

pub sprintf-ne :
    (prefix : String) (width m n : ℕ)
    → IsNat63 m
    → IsNat63 n
    → m ≢ n
    → sprintf prefix width m ≢ sprintf prefix width n
sprintf-ne prefix width m n hm hn ne e = ne (sprintf-injective prefix width m n hm hn e)

-- `%0Wd` of a uint64.
unfoldable pub sprintf_unsigned : String → ℕ → ℕ → String
unfolding digits digit
sprintf_unsigned prefix width n = prefix <> digits 20 width n

-- Below 2 ^ 63 the two agree.
pub sprintf_unsigned-sprintf :
    (prefix : String) (width n : ℕ)
    → IsNat63 n
    → sprintf_unsigned prefix width n ≡ sprintf prefix width n
unfolding sprintf_unsigned sprintf pad
sprintf_unsigned-sprintf prefix width n h = rw (is_negative_nat n h) refl

padded : sprintf "FTG-W-" 6 42 ≡ "FTG-W-000042"
unfolding sprintf
padded = refl

wide : sprintf "" 6 1234567 ≡ "1234567"
unfolding sprintf
wide = refl

signed : sprintf "" 6 (word - 42) ≡ "-00042"
unfolding sprintf
signed = refl
