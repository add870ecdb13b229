-- ===== src/Node/Trading/Unscreened.antt =====
-- What the compliance keeper's screening does to a KYC submission through cmd/ftgd/rpc_exchange.go.
use ftg_chain.Base.{◌≡◌, refl, false, some, String, str_eq, inl, inr, Bool-cases}
use ftg_chain.Base.Dict.{lookup}
use ftg_chain.Base.Time.{Time}
use ftg_chain.Base.Result.{Result, ok, err, Result-cases}
use ftg_chain.Node.Http.{Body, post, read_json}
use ftg_chain.Compliance.Types as ComplianceTypes
use ftg_chain.Exchange.Types.{
  Keeper, ExchangeWallet, KycApplication, Error, kyc_tier_none, kyc_tier_basic,
}
use ftg_chain.Exchange.Kyc.{has_pending, is_high_risk, file_kyc, submit_kyc}
use ftg_chain.Node.Trading.{ExchangeRpc}
use ftg_chain.Node.Trading.Kyc.{
  KycSubmitRequest, application_of, submit_answer, submit_requested, handle_kyc_submit,
}

module _ (req : KycSubmitRequest) (t : Time) (k : Keeper) (w : ExchangeWallet)
    (first : has_pending req.user_id k.kyc_apps ≡ false)
    (there : lookup req.wallet_id k.wallets ≡ some w) (fresh : w.kyc_tier ≡ kyc_tier_none)
    (basic : req.requested_tier ≡ kyc_tier_basic)
    (unlisted : is_high_risk req.country ≡ false) where
  abbrev filing : Keeper × KycApplication
  filing = file_kyc (application_of req) w t k

submit_answer-kyc :
    (req : KycSubmitRequest) (u : Time) (s s' : ExchangeRpc)
    (x : Keeper × Result Error KycApplication)
    → ((submit_answer req u s x).1 ≡ (submit_answer req u s' x).1)
      × ((submit_answer req u s x).0.exchange ≡ (submit_answer req u s' x).0.exchange)
unfolding submit_answer
submit_answer-kyc req u s s' (k, ok app) = (refl, refl)
submit_answer-kyc req u s s' (k, err e) = (refl, refl)

-- What the exchange keeper becomes, and what a submission answers, does not depend on the compliance
-- keeper.
pub handle_kyc_submit-kyc :
    (m : String) (b : Body KycSubmitRequest) (t u : Time) (k : Keeper)
    (c c' : ComplianceTypes.Keeper)
    → let x = handle_kyc_submit m b t u (record { exchange = k; kyc = c }) in
      let y = handle_kyc_submit m b t u (record { exchange = k; kyc = c' }) in
      (x.1 ≡ y.1) × (x.0.exchange ≡ y.0.exchange)
unfolding handle_kyc_submit post submit_requested
handle_kyc_submit-kyc m b t u k c c' = elim (Bool-cases (str_eq m "POST")) [
  | inr other ↦ rw other (refl, refl)
  | inl is_post ↦ elim (Result-cases (read_json b)) [
    | inl e ↦ rw (is_post, e.1) (refl, refl)
    | inr r ↦
        rw (is_post, r.1)
          (submit_answer-kyc r.0 u (record { exchange = k; kyc = c })
            (record { exchange = k; kyc = c' }) (submit_kyc (application_of r.0) t k))
  ]
]
