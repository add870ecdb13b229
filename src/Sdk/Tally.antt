-- ===== src/Sdk/Tally.antt =====
-- Totals in a type of numbers whose sums may overflow: what the elements of a list carry, added up in
-- their order.
use ftg_chain.Base.{
  ◌≡◌, refl, ap, ◌∙◌, inl, inr, Option, none, some, some_eq, Option-cases, List, [], ◌∷◌, ◌++◌,
}
use mathlib.Core.Option.{none-ne-some}

alone : {V : Type 0} (o : Option V) → (elim o [ none ↦ none | some a ↦ some a ]) ≡ o
alone none = refl
alone (some a) = refl

module _ {V : Type 0} (add : V → V → Option V) where
  abbrev pub moved : Option V → V → Option V
  moved none a = some a
  moved (some x) a = add a x

  module _ {A : Type 0} (carry : A → Option V) where
    unfoldable pub tally : V → List A → Option V
    tally a [] = some a
    tally a (e ∷ es) = elim (moved (carry e) a) [ none ↦ none | some b ↦ tally b es ]

    -- An element behind the others is added to their total.
    pub tally-append :
        (a b : V) (es : List A) (e : A)
        → tally a es ≡ some b
        → tally a (es ++ e ∷ []) ≡ moved (carry e) b
    unfolding tally
    tally-append a b [] e h = alone (moved (carry e) a) ∙ ap (λ x. moved (carry e) x) (some_eq h)
    tally-append a b (x ∷ es) e h = elim (Option-cases (moved (carry x) a)) [
      | inl over ↦ absurd (none-ne-some b (rw (tally, over) at h))
      | inr (c, fits) ↦ rw (tally, fits) (tally-append c b es e (rw (tally, fits) at h))
    ]
