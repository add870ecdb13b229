-- ===== src/Burn/Totals.antt =====
-- The burn statistics are the totals of the burn events.
use ftg_chain.Base.{
  ◌≡◌, refl, sym, subst, ◌∙◌, inl, inr, true, Option, none, some, some_eq, Option-cases, Bool-cases,
  List, [], ◌∷◌, ◌++◌, String, str_eq, eq_iff, arith, if◌then◌else◌,
}
use mathlib.Core.Option.{none-ne-some}
use ftg_chain.Base.Word.{add64}
use ftg_chain.Sdk.Numbers.{Numbers}
use ftg_chain.Burn.Types.{MerchantBurnData, BurnEvent, BurnStats}
use ftg_chain.Burn.Burns.{add_revenue, add_by_source, update_burn_stats, is_source}
use ftg_chain.Sdk.Tally.{moved, tally, tally-append}

abbrev pub revenue_of : {Decimal : Type 0} → Option (MerchantBurnData Decimal) → Option Decimal
revenue_of none = none
revenue_of (some merchant) = some merchant.energy_revenue_usd

module _ {Int Decimal : Type 0} where
  abbrev pub any_amount : BurnEvent Int Decimal → Option Int
  any_amount e = some e.amount

  -- The amount of an event from one source.
  abbrev pub amount_from : String → BurnEvent Int Decimal → Option Int
  amount_from source e = if str_eq e.source source then some e.amount else none

  -- The energy revenue of an event of the merchant protocol.
  abbrev pub revenue : BurnEvent Int Decimal → Option Decimal
  revenue e = if str_eq e.source "merchant_protocol" then revenue_of e.merchant_data else none

module _ {Int Decimal : Type 0} (m : Numbers Int Decimal) where
  pub record Totals (es : List (BurnEvent Int Decimal)) (stats : BurnStats Int Decimal)
      : Type 0 where
    pub all : tally m.int_add any_amount (m.new_int 0) es ≡ some stats.total_burned
    pub by_merchants :
        tally m.int_add (amount_from "merchant_protocol") (m.new_int 0) es
        ≡ some stats.merchant_protocol_burned
    pub by_hand : tally m.int_add (amount_from "manual") (m.new_int 0) es ≡ some stats.manual_burned
    pub redeemed :
        tally m.int_add (amount_from "redemption") (m.new_int 0) es ≡ some stats.redemption_burned
    pub usd :
        tally m.dec_add revenue (m.new_dec_with_prec 0 0) es ≡ some stats.total_energy_revenue_usd

  -- What one event does to the statistics.
  pub record Moves (e : BurnEvent Int Decimal) (s s' : BurnStats Int Decimal) : Type 0 where
    pub all : moved m.int_add (any_amount e) s.total_burned ≡ some s'.total_burned
    pub by_merchants :
        moved m.int_add (amount_from "merchant_protocol" e) s.merchant_protocol_burned
        ≡ some s'.merchant_protocol_burned
    pub by_hand : moved m.int_add (amount_from "manual" e) s.manual_burned ≡ some s'.manual_burned
    pub redeemed :
        moved m.int_add (amount_from "redemption" e) s.redemption_burned ≡ some s'.redemption_burned
    pub usd :
        moved m.dec_add (revenue e) s.total_energy_revenue_usd ≡ some s'.total_energy_revenue_usd
    pub counted : s'.total_burn_events ≡ add64 s.total_burn_events 1

  pub Totals-append :
      (es : List (BurnEvent Int Decimal)) (e : BurnEvent Int Decimal) (s s' : BurnStats Int Decimal)
      → Totals es s
      → Moves e s s'
      → Totals (es ++ e ∷ []) s'
  Totals-append es e s s' t v = record {
    all = tally-append m.int_add any_amount _ _ es e t.all ∙ v.all;
    by_merchants =
        tally-append m.int_add (amount_from "merchant_protocol") _ _ es e t.by_merchants
        ∙ v.by_merchants;
    by_hand = tally-append m.int_add (amount_from "manual") _ _ es e t.by_hand ∙ v.by_hand;
    redeemed = tally-append m.int_add (amount_from "redemption") _ _ es e t.redeemed ∙ v.redeemed;
    usd = tally-append m.dec_add revenue _ _ es e t.usd ∙ v.usd;
  }

  -- The update for an event from a source.
  abbrev pub Updates : String → Type 0
  Updates source =
      (e : BurnEvent Int Decimal) (s s' : BurnStats Int Decimal)
      → e.source ≡ source
      → update_burn_stats m e.amount source e.merchant_data s ≡ some s'
      → Moves e s s'

  manual-Moves : Updates "manual"
  unfolding update_burn_stats add_by_source
  manual-Moves e s s' from h = elim (Option-cases (m.int_add s.total_burned e.amount)) [
    | inl over ↦ absurd (none-ne-some s' (rw (update_burn_stats, over) at h))
    | inr (total, fits) ↦ elim (Option-cases (m.int_add s.manual_burned e.amount)) [
      | inl over ↦ absurd (none-ne-some s' (rw (update_burn_stats, fits, over) at h))
      | inr (burned, fits') ↦
          let done = some_eq (rw (update_burn_stats, fits, fits') at h) in
          subst (Moves e s) done (record {
            all = fits;
            by_merchants = rw from refl;
            by_hand = rw from fits';
            redeemed = rw from refl;
            usd = rw from refl;
            counted = refl;
          })
    ]
  ]

  redemption-Moves : Updates "redemption"
  unfolding update_burn_stats add_by_source
  redemption-Moves e s s' from h = elim (Option-cases (m.int_add s.total_burned e.amount)) [
    | inl over ↦ absurd (none-ne-some s' (rw (update_burn_stats, over) at h))
    | inr (total, fits) ↦ elim (Option-cases (m.int_add s.redemption_burned e.amount)) [
      | inl over ↦ absurd (none-ne-some s' (rw (update_burn_stats, fits, over) at h))
      | inr (burned, fits') ↦
          let done = some_eq (rw (update_burn_stats, fits, fits') at h) in
          subst (Moves e s) done (record {
            all = fits;
            by_merchants = rw from refl;
            by_hand = rw from refl;
            redeemed = rw from fits';
            usd = rw from refl;
            counted = refl;
          })
    ]
  ]

  add_revenue-moved :
      (given : Option (MerchantBurnData Decimal)) (s s' : BurnStats Int Decimal)
      → add_revenue m given s ≡ some s'
      → (usd : Decimal) × (moved m.dec_add (revenue_of given) s.total_energy_revenue_usd ≡ some usd)
        × (record s { total_energy_revenue_usd = usd } ≡ s')
  unfolding add_revenue
  add_revenue-moved none s s' h = (s.total_energy_revenue_usd, refl, some_eq h)
  add_revenue-moved (some merchant) s s' h =
      elim (Option-cases (m.dec_add s.total_energy_revenue_usd merchant.energy_revenue_usd)) [
        | inl over ↦ absurd (none-ne-some s' (rw (add_revenue, over) at h))
        | inr (usd, fits) ↦ (usd, fits, some_eq (rw (add_revenue, fits) at h))
      ]

  merchant-Moves : Updates "merchant_protocol"
  unfolding update_burn_stats add_by_source
  merchant-Moves e s s' from h = elim (Option-cases (m.int_add s.total_burned e.amount)) [
    | inl over ↦ absurd (none-ne-some s' (rw (update_burn_stats, over) at h))
    | inr (total, fits) ↦ elim (Option-cases (m.int_add s.merchant_protocol_burned e.amount)) [
      | inl over ↦ absurd (none-ne-some s' (rw (update_burn_stats, fits, over) at h))
      | inr (burned, fits') ↦
          let (usd, fits'', done) =
            add_revenue-moved e.merchant_data _ s' (rw (update_burn_stats, fits, fits') at h) in
          subst (Moves e s) done (record {
            all = fits;
            by_merchants = rw from fits';
            by_hand = rw from refl;
            redeemed = rw from refl;
            usd = rw from fits'';
            counted = refl;
          })
    ]
  ]

  pub update_burn_stats-Moves : (source : String) → is_source source ≡ true → Updates source
  update_burn_stats-Moves source h = elim (Bool-cases (str_eq source "merchant_protocol")) [
    | inl same ↦
        at_source "merchant_protocol" source (ground (arith, eq_iff source "merchant_protocol"))
          merchant-Moves
    | inr other ↦ elim (Bool-cases (str_eq source "manual")) [
      | inl same ↦ at_source "manual" source (ground (arith, eq_iff source "manual")) manual-Moves
      | inr other' ↦
          let last : str_eq source "redemption" ≡ true = rw (other, other') at h in
          at_source "redemption" source (ground (arith, eq_iff source "redemption"))
            redemption-Moves
    ]
  ]
    where
      at_source : (a b : String) → b ≡ a → Updates a → Updates b
      at_source a b e u = subst Updates (sym e) u
