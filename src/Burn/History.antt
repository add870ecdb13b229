-- ===== src/Burn/History.antt =====
-- Histories of x/burn: burns and new merchants in any order, between other transactions.
use native.Mathlib.Nat.{zero-add, suc-add}
use mathlib.Core.Option.{none-ne-some}
use ftg_chain.Base.{
  ℕ, suc, ◌+◌, ◌<◌, ◌≡◌, refl, sym, ap, subst, ◌∙◌, inl, inr, true, none, Option-cases, Bool-cases,
  List, [], ◌∷◌, String, arith,
}
use ftg_chain.Base.Word.{half, add64, add64_nat}
use ftg_chain.Base.Dict.{lookup, insert, values, values-insert}
use ftg_chain.Base.Fresh.{Fresh, Fresh-new}
use ftg_chain.Base.Lists.{length, length-append}
use ftg_chain.Base.Sprintf.{sprintf, sprintf_unsigned-sprintf}
use ftg_chain.Base.Time.{Time}
use ftg_chain.Sdk.Numbers.{Numbers}
use ftg_chain.Sdk.Supply.{Supply}
use ftg_chain.Burn.Types.{BurnEvent, BurnStats, Store, new_store}
use ftg_chain.Burn.Burns.{
  Burn, burn_id, burn_error, burned, burn_tokens, is_source, new_event, set_burn_event,
  add_authorized_merchant, update_burn_stats,
}
use ftg_chain.Sdk.Tally.{tally}
use ftg_chain.Burn.Totals.{Totals, Totals-append, Moves, update_burn_stats-Moves}

pub data Call (S Int Decimal : Type 0) : Type 0 where
  burns : Burn Int Decimal → Time → Call S Int Decimal
  adds_merchant : String → Call S Int Decimal
  -- What the bank does elsewhere.
  elsewhere : S → Call S Int Decimal

module _ {S Int Decimal : Type 0} (m : Numbers Int Decimal) (b : Supply S Int) where
  unfoldable pub step : Call S Int Decimal → Store S Int Decimal → Store S Int Decimal
  step (burns req now) k = (burn_tokens m b req now k).0
  step (adds_merchant a) k = add_authorized_merchant a k
  step (elsewhere s) k = record k { bank = s }

  unfoldable pub run : List (Call S Int Decimal) → Store S Int Decimal → Store S Int Decimal
  unfolding step
  run [] k = k
  run (c ∷ cs) k = run cs (step c k)

  -- The statistics total the events, and there are identifiers left for `room` more.
  record Totalled (room : ℕ) (k : Store S Int Decimal) : Type 0 where
    pub within : k.count + room < half
    pub fresh : Fresh "FTG-BURN-" 6 k.count k.burn_events
    pub counted : k.stats.total_burn_events ≡ k.count
    pub stored : length (values k.burn_events) ≡ k.count
    pub totals : Totals m (values k.burn_events) k.stats

  burn_error-is_source :
      (req : Burn Int Decimal) (k : Store S Int Decimal)
      → burn_error m b req k ≡ none
      → is_source req.source ≡ true
  unfolding burn_error
  burn_error-is_source req k h = elim (Bool-cases (is_source req.source)) [
    | inl known ↦ known
    | inr unknown ↦ absurd (none-ne-some _ (sym (rw (burn_error, unknown) at h)))
  ]

  module _ (room : ℕ) (k : Store S Int Decimal) (v : Totalled (suc room) k) where
    stays : (s : S) → Totalled room (record k { bank = s })
    stays s =
        let w = v.within in
        record {
          within = omega arith;
          fresh = v.fresh;
          counted = v.counted;
          stored = v.stored;
          totals = v.totals;
        }

    -- A new event under its identifier, with the statistics that it moves.
    added :
        (e : BurnEvent Int Decimal) (s : S) (stats : BurnStats Int Decimal)
        → e.burn_id ≡ sprintf "FTG-BURN-" 6 (add64 k.count 1)
        → Moves m e k.stats stats
        → Totalled room
            (set_burn_event e (record k { bank = s; count = add64 k.count 1; stats = stats }))
    unfolding set_burn_event
    added e s stats made moves =
        let w = v.within in
        let next : add64 k.count 1 ≡ k.count + 1 = add64_nat k.count 1 (omega arith) in
        let free : lookup e.burn_id k.burn_events ≡ none =
          ap (λ i. lookup i k.burn_events) made
          ∙ v.fresh (add64 k.count 1) (omega arith) (omega arith) in
        let behind = values-insert e.burn_id e k.burn_events free in
        let before = v.stored in
        let longer = length-append (values k.burn_events) (e ∷ []) in
        record {
          within = omega arith;
          fresh =
              subst (λ i. Fresh "FTG-BURN-" 6 (add64 k.count 1) (insert i e k.burn_events))
                (sym made) (Fresh-new "FTG-BURN-" 6 k.count k.burn_events e (omega arith) v.fresh);
          counted = moves.counted ∙ ap (λ n. add64 n 1) v.counted;
          stored = ap length behind ∙ longer ∙ omega arith;
          totals =
              subst (λ es. Totals m es stats) (sym behind)
                (Totals-append m (values k.burn_events) e k.stats stats v.totals moves);
        }

    burned-Totalled :
        (req : Burn Int Decimal) (now : Time) (s : S)
        → is_source req.source ≡ true
        → Totalled room (burned m req now k s).0
    unfolding burned burn_id
    burned-Totalled req now s known =
        elim (Option-cases (update_burn_stats m req.amount req.source req.merchant_data k.stats)) [
          | inl over ↦ rw (burned, over) (stays k.bank)
          | inr (stats, fits) ↦
              let w = v.within in
              let next : add64 k.count 1 ≡ k.count + 1 = add64_nat k.count 1 (omega arith) in
              let e = new_event req (burn_id (add64 k.count 1)) now in
              rw (burned, fits)
                (added e s stats
                  (sprintf_unsigned-sprintf "FTG-BURN-" 6 (add64 k.count 1) (omega arith))
                  (update_burn_stats-Moves m req.source known e k.stats stats refl fits))
        ]

    burn_tokens-Totalled :
        (req : Burn Int Decimal) (now : Time) → Totalled room (burn_tokens m b req now k).0
    unfolding burn_tokens
    burn_tokens-Totalled req now = elim (Option-cases (burn_error m b req k)) [
      | inr (e, refused) ↦ rw (burn_tokens, refused) (stays k.bank)
      | inl fine ↦
          elim (Option-cases (b.send_to_module req.sender "ftgburn" "uftg" req.amount k.bank)) [
            | inl unsent ↦ rw (burn_tokens, fine, unsent) (stays k.bank)
            | inr (held, sent) ↦
                elim (Option-cases (b.burn_coins "ftgburn" "uftg" req.amount held)) [
                  | inl kept ↦ rw (burn_tokens, fine, sent, kept) (stays held)
                  | inr (s, gone) ↦
                      rw (burn_tokens, fine, sent, gone)
                        (burned-Totalled req now s (burn_error-is_source req k fine))
                ]
          ]
    ]

    step-Totalled : (c : Call S Int Decimal) → Totalled room (step c k)
    unfolding step add_authorized_merchant
    step-Totalled (burns req now) = burn_tokens-Totalled req now
    step-Totalled (adds_merchant a) =
        let w = v.within in
        record {
          within = omega arith;
          fresh = v.fresh;
          counted = v.counted;
          stored = v.stored;
          totals = v.totals;
        }
    step-Totalled (elsewhere s) = stays s

  run-Totalled :
      (cs : List (Call S Int Decimal)) (room : ℕ) (k : Store S Int Decimal)
      → Totalled (length cs + room) k
      → Totalled room (run cs k)
  unfolding run
  run-Totalled [] room k v = rw (zero-add room) at v
  run-Totalled (c ∷ cs) room k v =
      run-Totalled cs room (step c k)
        (step-Totalled (length cs + room) k (rw (suc-add (length cs) room) at v) c)

  new_store-Totalled : (s : S) (room : ℕ) → room < half → Totalled room (new_store m s)
  unfolding lookup values tally
  new_store-Totalled s room h = record {
    within = omega arith;
    fresh = λ n hn above. refl;
    counted = refl;
    stored = refl;
    totals = record {
      all = refl;
      by_merchants = refl;
      by_hand = refl;
      redeemed = refl;
      usd = refl;
    };
  }

  -- After any history of fewer than 2 ^ 63 calls, burns that fail included, the statistics are those of
  -- the stored events: the number of events, the sum of their amounts, the sums for each of the
  -- three sources, and the energy revenue of the merchant protocol, added in the order of the events.
  pub burn_stats_totalled :
      (s : S) (cs : List (Call S Int Decimal))
      → length cs < half
      → let k = run cs (new_store m s) in
        (k.stats.total_burn_events ≡ length (values k.burn_events))
        × Totals m (values k.burn_events) k.stats
  burn_stats_totalled s cs h =
      let v =
        run-Totalled cs 0 (new_store m s) (new_store-Totalled s (length cs + 0) (omega arith)) in
      (v.counted ∙ sym v.stored, v.totals)
