-- ===== src/Base/Fresh.antt =====
-- Identifiers made from a counter: no entry stands under a number that the counter has not reached.
use ftg_chain.Base.{ℕ, ◌+◌, ◌<◌, ◌≡◌, ◌∙◌, none, some, String, arith, eq_iff}
use ftg_chain.Base.Word.{IsNat63, add64, half, add64_nat}
use ftg_chain.Base.Sprintf.{sprintf, sprintf-ne}
use ftg_chain.Base.Dict.{Dict, lookup, insert, lookup-insert, lookup-insert_ne}

-- The counter is at `seq`, and the entries above it are free.
abbrev pub Fresh {ℓ} : {V : Type ℓ} → String → ℕ → ℕ → Dict V → Type ℓ
Fresh prefix width seq m = (n : ℕ) → IsNat63 n → seq < n → lookup (sprintf prefix width n) m ≡ none

module _ {ℓ} {V : Type ℓ} (prefix : String) (width seq : ℕ) (m : Dict V) where
  pub Fresh-new :
      (v : V)
      → seq + 1 < half
      → Fresh prefix width seq m
      → Fresh prefix width (add64 seq 1) (insert (sprintf prefix width (add64 seq 1)) v m)
  Fresh-new v room fresh n hn above =
      let next : add64 seq 1 ≡ seq + 1 = add64_nat seq 1 (omega arith) in
      lookup-insert_ne (sprintf prefix width (add64 seq 1)) (sprintf prefix width n) v m
        (sprintf-ne prefix width (add64 seq 1) n (omega arith) hn (omega arith))
      ∙ fresh n hn (omega arith)

  pub Fresh-old :
      (k : String) (v old : V)
      → lookup k m ≡ some old
      → Fresh prefix width seq m
      → Fresh prefix width seq (insert k v m)
  Fresh-old k v old e fresh n hn above = ground (
    arith,
    lookup-insert k (sprintf prefix width n) v m,
    fresh n hn above,
    eq_iff k (sprintf prefix width n),
  )
