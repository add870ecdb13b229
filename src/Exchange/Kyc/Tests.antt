-- ===== src/Exchange/Kyc/Tests.antt =====
-- Applications at concrete inputs.
use ftg_chain.Base.{◌≤◌, ◌≡◌, refl, false, true, none, some, List, [], ◌∷◌, arith}
use ftg_chain.Base.Word.{add64, neg64}
use ftg_chain.Base.Dict.{lookup, insert, count_by}
use ftg_chain.Base.Sprintf.{sprintf, pad}
use ftg_chain.Base.Result.{ok}
use ftg_chain.Exchange.Types.{
  Keeper, ExchangeWallet, KycApplication, KycStatus, rejected, approved, new_keeper,
}
use ftg_chain.Exchange.Kyc.{
  awaits, has_pending, is_high_risk, run_aml_checks, screened, is_auto_approved, file_kyc,
  submit_kyc, approve_kyc, kyc_id,
}
use ftg_chain.Exchange.Kyc.Screened.{Screened, submit_kyc-Screened}
use ftg_chain.Exchange.Kyc.Pending.{Call, submits, approves, step, run, one_pending}

abbrev wallet : ExchangeWallet
wallet = record {
  id = "FTG-W-000001";
  user_id = "sam";
  address = "ftg1exchangeFTG-W-000001";
  label = "";
  created_at = 1;
  kyc_tier = 0;
  balances = [];
  locked = [];
  active = true;
}

abbrev application : KycApplication
application = record {
  id = "";
  user_id = "sam";
  wallet_id = "FTG-W-000001";
  requested_tier = 1;
  current_tier = 0;
  status = KycStatus.unset;
  email = "sam@example.org";
  phone = "";
  country = "IR";
  full_name = "Sam";
  date_of_birth = "";
  id_type = "";
  id_number = "";
  id_document_hash = "";
  proof_of_address = "";
  company_name = "";
  company_reg_no = "";
  company_country = "";
  aml_risk_score = 0;
  pep_check = false;
  sanctions_check = false;
  submitted_at = 0;
  reviewed_at = none;
  approved_at = none;
  rejected_reason = "";
}

abbrev start : Keeper
start = record new_keeper { wallets = ("FTG-W-000001", wallet) ∷ [] }

abbrev filed : KycApplication
filed = record application {
  id = "FTG-KYC-000001";
  status = rejected;
  aml_risk_score = 80;
  sanctions_check = true;
  submitted_at = 5;
  rejected_reason = "OFAC/EU sanctions list match";
}

abbrev after : Keeper
after = record start {
  wallets = ("FTG-W-000001", record wallet { active = false }) ∷ [];
  kyc_apps = ("FTG-KYC-000001", filed) ∷ [];
  kyc_seq = 1;
}

submission_is_filed : submit_kyc application 5 start ≡ (after, ok filed)
unfolding submit_kyc has_pending lookup file_kyc screened run_aml_checks is_high_risk
    is_auto_approved kyc_id sprintf pad neg64 add64 insert
submission_is_filed = refl

submit_kyc-Screened_example :
    (w w' : ExchangeWallet) × (lookup "FTG-W-000001" start.wallets ≡ some w)
    × (lookup "FTG-W-000001" after.wallets ≡ some w')
    × Screened application filed 5 w w'
submit_kyc-Screened_example =
    submit_kyc-Screened application filed 5 start after submission_is_filed

-- The full tier waits for a decision; a second application is refused until the first is decided.
abbrev full : KycApplication
full = record application { country = "DE"; requested_tier = 2 }

abbrev calls : List Call
calls = submits full 1 ∷ submits full 2 ∷ approves "FTG-KYC-000001" 3 ∷ submits full 4 ∷ []

abbrev at_end : Keeper
at_end = record start {
  wallets = ("FTG-W-000001", record wallet { kyc_tier = 2 }) ∷ [];
  kyc_apps =
      (
        "FTG-KYC-000001",
        record full {
          id = "FTG-KYC-000001";
          status = approved;
          submitted_at = 1;
          reviewed_at = some 3;
          approved_at = some 3;
        },
      )
      ∷ [];
  kyc_seq = 1;
}

run-calls : run calls start ≡ some at_end
unfolding run step submit_kyc has_pending lookup file_kyc screened run_aml_checks is_high_risk
    is_auto_approved kyc_id sprintf pad neg64 add64 insert approve_kyc
run-calls = refl

one_pending_example : count_by (awaits "sam") at_end.kyc_apps ≤ 1
one_pending_example =
    one_pending (("FTG-W-000001", wallet) ∷ []) calls "sam" at_end (omega arith) run-calls
