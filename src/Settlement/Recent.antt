-- ===== src/Settlement/Recent.antt =====
-- GetSettlements of x/settlement/keeper/keeper.go.
use ftg_chain.Base.{
  ℕ, zero, suc, ◌-◌, ◌<◌, ◌≤◌, ◌≡◌, refl, sym, ap, ◌∙◌, inl, inr, true, false, some, List, [], ◌∷◌,
  ◌++◌, arith, if◌then◌else◌, Bool-cases, ◌==◌,
}
use ftg_chain.Base.Word.{half, slt, sle}
use ftg_chain.Base.Lists.{length, take, get_elem?, length-append}
use ftg_chain.Settlement.Types.{Keeper, SettlementRecord}
use ftg_chain.Settlement.Escrows.{collect_down, get_settlements}

-- The list from its end on.
abbrev pub reversed : List SettlementRecord → List SettlementRecord
reversed [] = []
reversed (r ∷ rs) = reversed rs ++ r ∷ []

-- The element before an index, and what comes before it.
reversed-take :
    (i : ℕ) (rs : List SettlementRecord)
    → i < length rs
    → (r : SettlementRecord) × (get_elem? rs i ≡ some r)
      × (reversed (take (suc i) rs) ≡ r ∷ reversed (take i rs))
reversed-take i [] h = absurd (omega arith)
reversed-take zero (r ∷ rs) h = (r, refl, refl)
reversed-take (suc i) (r ∷ rs) h =
    let (x, e, t) = reversed-take i rs (omega arith) in (x, e, ap (λ ys. ys ++ r ∷ []) t)

collect_down-take :
    (rounds i : ℕ) (rs : List SettlementRecord)
    → rounds ≤ i
    → i ≤ length rs
    → collect_down rounds i rs ≡ take rounds (reversed (take i rs))
unfolding collect_down
collect_down-take zero i rs h g = refl
collect_down-take (suc n) zero rs h g = absurd (omega arith)
collect_down-take (suc n) (suc i) rs h g =
    let (r, e, t) = reversed-take i rs (omega arith) in
    let p : suc i - 1 ≡ i = omega arith in
    rw (p, e, t, collect_down)
      (ap (λ ys. r ∷ ys)
        (ap (λ m. collect_down n m rs) p ∙ collect_down-take n i rs (omega arith) (omega arith)))

take-length : (rs : List SettlementRecord) → take (length rs) rs ≡ rs
take-length [] = refl
take-length (r ∷ rs) = ap (λ ys. r ∷ ys) (take-length rs)

take-all : (n : ℕ) (rs : List SettlementRecord) → length rs ≤ n → take n rs ≡ rs
take-all zero [] h = refl
take-all (suc n) [] h = refl
take-all zero (r ∷ rs) h = absurd (omega arith)
take-all (suc n) (r ∷ rs) h = ap (λ ys. r ∷ ys) (take-all n rs (omega arith))

length-reversed : (rs : List SettlementRecord) → length (reversed rs) ≡ length rs
length-reversed [] = refl
length-reversed (r ∷ rs) =
    length-append (reversed rs) (r ∷ []) ∙ (let h = length-reversed rs in omega arith)

collect_down-all :
    (n : ℕ) (rs : List SettlementRecord)
    → n ≤ length rs
    → collect_down n (length rs) rs ≡ take n (reversed rs)
collect_down-all n rs h =
    collect_down-take n (length rs) rs h (omega arith)
    ∙ ap (λ ys. take n (reversed ys)) (take-length rs)

-- For a limit and a number of records below 2 ^ 63: GetSettlements lists the records from the latest
-- on, at most as many as the limit if that is positive, and else all of them.
pub get_settlements-reversed :
    (limit : ℕ) (k : Keeper)
    → limit < half
    → length k.settlements < half
    → get_settlements limit k
      ≡ (if limit == 0 then reversed k.settlements else take limit (reversed k.settlements))
unfolding get_settlements
get_settlements-reversed limit k h g =
    let rs = k.settlements in
    let n = length-reversed rs in
    let whole : collect_down (length rs) (length rs) rs ≡ reversed rs =
      collect_down-all (length rs) rs (omega arith)
      ∙ take-all (length rs) (reversed rs) (omega arith) in
    elim (Bool-cases (limit == 0)) [
      | inl zero_limit ↦ let z : sle limit 0 ≡ true = ground arith in rw (z, zero_limit) whole
      | inr positive ↦
          let z : sle limit 0 ≡ false = ground arith in
          elim (Bool-cases (slt (length rs) limit)) [
            | inl beyond ↦
                let b : length rs < limit = ground arith in
                rw (z, positive, beyond) (whole ∙ sym (take-all limit (reversed rs) (omega arith)))
            | inr within ↦
                let b : limit ≤ length rs = ground arith in
                rw (z, positive, within) (collect_down-all limit rs b)
          ]
    ]
