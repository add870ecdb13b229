-- ===== src/Exchange/Orders/Admitted.antt =====
-- Which orders PlaceOrder admits, and what is left of those that it refuses.
use ftg_chain.Base.{
  subst, ◌≡◌, ◌⊎◌, refl, sym, ap, ◌∙◌, inl, inr, false, some, some_eq, String, arith, Bool-cases,
  Option-cases,
}
use ftg_chain.Base.Word.{add64, slt}
use ftg_chain.Base.Time.{Time}
use ftg_chain.Base.Result.{err, Result-cases}
use ftg_chain.Exchange.Types.{Keeper, ExchangeWallet, TradingPair, Error, kyc_tier_inst, tier_limit}
use ftg_chain.Exchange.Wallets.{available}
use ftg_chain.Exchange.Limits.{quote_value, daily_limit, check_daily_limit}
use ftg_chain.Exchange.Matching.{match_order}
use ftg_chain.Exchange.Orders.{
  Request, checked, place_order, lock_and_match, lock_denom, lock_amount, new_order, opened_order,
}
use ftg_chain.Exchange.Orders.Placed.{limits_checked, check_daily_limit-limits_checked}

-- The day's volume with the order's value is within the limit of the wallet's tier, or the tier has
-- no limit.
abbrev pub WithinLimit : Request → String → Keeper → ExchangeWallet → Type 0
WithinLimit r today k w =
    (w.kyc_tier ≡ kyc_tier_inst)
    ⊎ (slt (tier_limit w.kyc_tier k.config.tier_limits)
          (add64 (daily_limit w.user_id today k).total_volume (quote_value r.price r.quantity))
        ≡ false)

lock_and_match-err :
    (r : Request) (w : ExchangeWallet) (pair : TradingPair) (now : Time) (today : String)
    (k k' : Keeper) (bad : Error)
    → lock_and_match r w pair now today k ≡ some (k', err bad)
    → k' ≡ k
unfolding lock_and_match
lock_and_match-err r w pair now today k k' bad e =
    elim (Bool-cases
      (slt (available (lock_denom r.side pair) w) (lock_amount r.side r.price r.quantity))) [
        | inl short ↦ sym (ap (λ x. x.0) (some_eq (rw (short, lock_and_match) at e)))
        | inr funded ↦
            elim (Option-cases (
              match_order (new_order r w (add64 k.order_seq 1) now) pair r.block_height now today
                (opened_order r w pair now k))) [
                  | inl fault ↦ absurd (ground (arith, funded, fault, e))
                  | inr (m, run) ↦ absurd (ground (arith, funded, run, e))
                ]
      ]

-- When PlaceOrder returns an error, it has changed nothing but the entries of the daily limits.
pub place_order-err :
    (r : Request) (now : Time) (today : String) (k k' : Keeper) (bad : Error)
    → place_order r now today k ≡ some (k', err bad)
    → k' ≡ record k { daily_limits = k'.daily_limits }
unfolding place_order
place_order-err r now today k k' bad e = elim (Result-cases (checked r k)) [
  | inl (b, c) ↦
      let s : k ≡ k' = ap (λ x. x.0) (some_eq (rw (c, place_order) at e)) in
      subst (λ x. x ≡ record k { daily_limits = x.daily_limits }) s refl
  | inr ((w, pair), c) ↦
      let same : (check_daily_limit w r.price r.quantity today k).0 ≡ limits_checked r w today k =
        check_daily_limit-limits_checked r w today k in
      elim (Option-cases (check_daily_limit w r.price r.quantity today k).1) [
        | inr (b, d) ↦
            let s : (check_daily_limit w r.price r.quantity today k).0 ≡ k' =
              ap (λ x. x.0) (some_eq (rw (d, place_order) at (rw (c, place_order) at e))) in
            subst (λ x. x ≡ record k { daily_limits = x.daily_limits }) (sym same ∙ s) refl
        | inl passed ↦
            let l : lock_and_match r w pair now today
                  (check_daily_limit w r.price r.quantity today k).0
                ≡ some (k', err bad) =
              rw (passed, place_order) at (rw (c, place_order) at e) in
            subst (λ x. x ≡ record k { daily_limits = x.daily_limits })
              (sym same
                ∙ sym (
                    lock_and_match-err r w pair now today
                      (check_daily_limit w r.price r.quantity today k).0 k' bad l))
              refl
      ]
]
