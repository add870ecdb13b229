-- ===== src/Exchange/Kyc.antt =====
-- SubmitKYC, ApproveKYC, RejectKYC and runAMLChecks of x/exchange/keeper/keeper.go. The application
-- that a caller submits is taken by value. `none` is a nil dereference.
mod Tests
pub mod Screened
pub mod Pending
use ftg_chain.Base.{
  ℕ, Bool, true, false, not, ◌&&◌, ◌||◌, Option, none, some, List, [], ◌∷◌, String, str_eq, ◌==◌,
  if◌then◌else◌,
}
use ftg_chain.Base.Word.{add64, slt}
use ftg_chain.Base.Dict.{Dict, lookup, insert}
use ftg_chain.Base.Sprintf.{sprintf}
use ftg_chain.Base.Time.{Time}
use ftg_chain.Base.Result.{Result, ok, err, ◌>>=◌, ◌>>◌, check, or_err}
use ftg_chain.Exchange.Types.{
  Keeper, ExchangeWallet, KycApplication, KycStatus, pending, approved, rejected, Error,
  kyc_already_pending, kyc_already_approved, wallet_not_found, kyc_not_found, kyc_not_pending,
  kyc_tier_basic,
}

unfoldable pub kyc_id : ℕ → String
unfolding sprintf
kyc_id = sprintf "FTG-KYC-" 6

abbrev pub is_pending : KycStatus → Bool
is_pending pending = true
is_pending _ = false

-- An application of the user that waits for a decision.
abbrev pub awaits : String → KycApplication → Bool
awaits user_id app = str_eq app.user_id user_id && is_pending app.status

-- The first loop of SubmitKYC.
unfoldable pub has_pending : String → Dict KycApplication → Bool
has_pending user_id [] = false
has_pending user_id ((id, app) ∷ m) = awaits user_id app || has_pending user_id m

abbrev pub one_of : String → List String → Bool
one_of c [] = false
one_of c (d ∷ ds) = str_eq d c || one_of c ds

-- highRiskCountries
unfoldable pub is_high_risk : String → Bool
is_high_risk country = one_of country ("KP" ∷ "IR" ∷ "SY" ∷ "MM" ∷ "YE" ∷ "AF" ∷ [])

-- runAMLChecks: a mark that the caller has set on the application stays.
unfoldable pub run_aml_checks : KycApplication → KycApplication
run_aml_checks app =
    if is_high_risk app.country
    then record app { aml_risk_score = 80; pep_check = false; sanctions_check = true }
    else record app { aml_risk_score = 0; pep_check = false }

-- The application as SubmitKYC fills it in, with its checks run.
unfoldable pub screened : KycApplication → ExchangeWallet → ℕ → Time → KycApplication
unfolding run_aml_checks
screened app w seq now = run_aml_checks (record app {
  id = kyc_id seq;
  status = pending;
  current_tier = w.kyc_tier;
  submitted_at = now;
})

-- The basic tier is approved at once if the checks found nothing.
unfoldable pub is_auto_approved : KycApplication → Bool
is_auto_approved app =
    (app.requested_tier == kyc_tier_basic)
    && (slt app.aml_risk_score 30 && (not app.pep_check && not app.sanctions_check))

abbrev pub auto_approve : Time → KycApplication → KycApplication
auto_approve now app =
    if is_auto_approved app then record app { status = approved; approved_at = some now } else app

abbrev pub auto_tier : KycApplication → ExchangeWallet → ExchangeWallet
auto_tier app w = if is_auto_approved app then record w { kyc_tier = kyc_tier_basic } else w

abbrev pub sanction : KycApplication → KycApplication
sanction app =
    if app.sanctions_check
    then record app { status = rejected; rejected_reason = "OFAC/EU sanctions list match" }
    else app

abbrev pub freeze : KycApplication → ExchangeWallet → ExchangeWallet
freeze app w = if app.sanctions_check then record w { active = false } else w

-- SubmitKYC after its checks, for the wallet and the new number.
unfoldable pub file_kyc : KycApplication → ExchangeWallet → Time → Keeper → Keeper × KycApplication
unfolding screened is_auto_approved
file_kyc app w now k =
    let s = screened app w (add64 k.kyc_seq 1) now in
    let filed = sanction (auto_approve now s) in
    (
      record k {
        kyc_seq = add64 k.kyc_seq 1;
        wallets = insert app.wallet_id (freeze s (auto_tier s w)) k.wallets;
        kyc_apps = insert filed.id filed k.kyc_apps;
      },
      filed,
    )

unfoldable pub submit_kyc : KycApplication → Time → Keeper → Keeper × Result Error KycApplication
unfolding file_kyc has_pending
submit_kyc app now k =
    if has_pending app.user_id k.kyc_apps
    then (k, err kyc_already_pending)
    else elim (lookup app.wallet_id k.wallets) [
      | none ↦ (k, err wallet_not_found)
      | some w ↦
          if slt w.kyc_tier app.requested_tier
          then (let (k', filed) = file_kyc app w now k in (k', ok filed))
          else (k, err kyc_already_approved)
    ]

unfoldable pub approve_kyc : String → Time → Keeper → Option (Keeper × Result Error (Unit {0}))
approve_kyc id now k = elim (lookup id k.kyc_apps) [
  | none ↦ some (k, err (kyc_not_found id))
  | some app ↦
      if is_pending app.status
      then elim (lookup app.wallet_id k.wallets) [
        | none ↦ none
        | some w ↦ some (
          record k {
            kyc_apps =
                insert id
                  (record app { status = approved; approved_at = some now; reviewed_at = some now })
                  k.kyc_apps;
            wallets = insert app.wallet_id (record w { kyc_tier = app.requested_tier }) k.wallets;
          },
          ok tt,
        )
      ]
      else some (k, err (kyc_not_pending app.status))
]

unfoldable pub reject_kyc : String → String → Time → Keeper → Keeper × Result Error (Unit {0})
reject_kyc id reason now k = elim (lookup id k.kyc_apps) [
  | none ↦ (k, err (kyc_not_found id))
  | some app ↦ (
    record k {
      kyc_apps =
          insert id
            (record app { status = rejected; rejected_reason = reason; reviewed_at = some now })
            k.kyc_apps;
    },
    ok tt,
  )
]
