-- ===== src/Node/Trading/Kyc.antt =====
-- The KYC and compliance handlers of cmd/ftgd/rpc_exchange.go that change a keeper. A submission goes
-- to the exchange keeper and, where a name and a country are given, to the compliance keeper's
-- screening, whose result is dropped.
use ftg_chain.Base.{ℕ, ◌||◌, false, Option, none, String, str_eq, if◌then◌else◌}
use ftg_chain.Base.Time.{Time}
use ftg_chain.Base.Result.{Result, ok, err}
use ftg_chain.Node.Http.{Body, Response, failed, success, post, post_or_panic}
use ftg_chain.Compliance.Types as ComplianceTypes
use ftg_chain.Compliance.Types.{ScreeningResult}
use ftg_chain.Compliance.Screening.{screen_user}
use ftg_chain.Compliance.Flags as Flags
use ftg_chain.Compliance.Flags.{resolve_flag}
use ftg_chain.Exchange.Types.{Keeper, KycApplication, KycStatus, Error}
use ftg_chain.Exchange.Kyc.{submit_kyc, approve_kyc, reject_kyc}
use ftg_chain.Node.Trading.{ExchangeRpc, exchanged, exchanged_or_panic}

pub record KycSubmitRequest : Type 0 where
  pub user_id : String
  pub wallet_id : String
  pub requested_tier : ℕ
  pub email : String
  pub phone : String
  pub country : String
  pub full_name : String
  pub date_of_birth : String
  pub id_type : String
  pub id_number : String
  pub company_name : String
  pub company_reg_no : String

-- The fields that the handler leaves out are zero.
unfoldable pub application_of : KycSubmitRequest → KycApplication
application_of req = record {
  id = "";
  user_id = req.user_id;
  wallet_id = req.wallet_id;
  requested_tier = req.requested_tier;
  current_tier = 0;
  status = KycStatus.unset;
  email = req.email;
  phone = req.phone;
  country = req.country;
  full_name = req.full_name;
  date_of_birth = req.date_of_birth;
  id_type = req.id_type;
  id_number = req.id_number;
  id_document_hash = "";
  proof_of_address = "";
  company_name = req.company_name;
  company_reg_no = req.company_reg_no;
  company_country = "";
  aml_risk_score = 0;
  pep_check = false;
  sanctions_check = false;
  submitted_at = 0;
  reviewed_at = none;
  approved_at = none;
  rejected_reason = "";
}

unfoldable pub screened_after :
    KycSubmitRequest → Time → ComplianceTypes.Keeper → ComplianceTypes.Keeper
screened_after req now k =
    if str_eq req.full_name "" || str_eq req.country ""
    then k
    else (screen_user req.user_id req.country now k).0

unfoldable pub submit_answer :
    KycSubmitRequest
    → Time
    → ExchangeRpc
    → Keeper × Result Error KycApplication
    → ExchangeRpc × Response Error KycApplication
unfolding screened_after
submit_answer req now s (k, err e) = (record s { exchange = k }, failed e)
submit_answer req now s (k, ok app) =
    (record { exchange = k; kyc = screened_after req now s.kyc }, success app)

unfoldable pub submit_requested :
    Time → Time → KycSubmitRequest → ExchangeRpc → ExchangeRpc × Response Error KycApplication
unfolding application_of submit_answer
submit_requested filed_at screened_at req s =
    submit_answer req screened_at s (submit_kyc (application_of req) filed_at s.exchange)

unfoldable pub handle_kyc_submit :
    String
    → Body KycSubmitRequest
    → Time
    → Time
    → ExchangeRpc
    → ExchangeRpc × Response Error KycApplication
unfolding submit_requested
handle_kyc_submit method body filed_at screened_at s =
    post method body (submit_requested filed_at screened_at) s

pub record KycApproveRequest : Type 0 where
  pub application_id : String

pub record KycApproveAnswer : Type 0 where
  pub message : String
  pub application_id : String

unfoldable pub handle_kyc_approve :
    String
    → Body KycApproveRequest
    → Time
    → ExchangeRpc
    → Option (ExchangeRpc × Response Error KycApproveAnswer)
unfolding exchanged_or_panic
handle_kyc_approve method body now s =
    post_or_panic method body
      (λ req s.
        exchanged_or_panic s
          (λ _. record {
            message = "KYC application approved";
            application_id = req.application_id;
          })
          (approve_kyc req.application_id now s.exchange))
      s

pub record KycRejectRequest : Type 0 where
  pub application_id : String
  pub reason : String

pub record KycRejectAnswer : Type 0 where
  pub message : String
  pub application_id : String
  pub reason : String

unfoldable pub handle_kyc_reject :
    String
    → Body KycRejectRequest
    → Time
    → ExchangeRpc
    → ExchangeRpc × Response Error KycRejectAnswer
unfolding exchanged
handle_kyc_reject method body now s =
    post method body
      (λ req s.
        exchanged s
          (λ _. record {
            message = "KYC application rejected";
            application_id = req.application_id;
            reason = req.reason;
          })
          (reject_kyc req.application_id req.reason now s.exchange))
      s

pub record ScreenRequest : Type 0 where
  pub user_id : String
  pub full_name : String
  pub country : String
  pub id_number : String

unfoldable pub handle_kyc_screen :
    String
    → Body ScreenRequest
    → Time
    → ExchangeRpc
    → ExchangeRpc × Response Flags.Error ScreeningResult
handle_kyc_screen method body now s =
    post method body
      (λ req s.
        let x = screen_user req.user_id req.country now s.kyc in
        (record s { kyc = x.0 }, success x.1))
      s

pub record ResolveFlagRequest : Type 0 where
  pub flag_id : String
  pub resolution : String

pub record ResolveFlagAnswer : Type 0 where
  pub message : String
  pub flag_id : String
  pub resolution : String

unfoldable pub resolve_answer :
    ResolveFlagRequest
    → ExchangeRpc
    → ComplianceTypes.Keeper × Result Flags.Error (Unit {0})
    → ExchangeRpc × Response Flags.Error ResolveFlagAnswer
resolve_answer req s (k, err e) = (record s { kyc = k }, failed e)
resolve_answer req s (k, ok _) = (
  record s { kyc = k },
  success
      (record { message = "Flag resolved"; flag_id = req.flag_id; resolution = req.resolution }),
)

unfoldable pub handle_compliance_resolve :
    String
    → Body ResolveFlagRequest
    → Time
    → ExchangeRpc
    → ExchangeRpc × Response Flags.Error ResolveFlagAnswer
unfolding resolve_answer
handle_compliance_resolve method body now s =
    post method body
      (λ req s. resolve_answer req s (resolve_flag req.flag_id req.resolution now s.kyc)) s
