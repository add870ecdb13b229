-- ===== src/Compliance/Types.antt =====
-- x/kyc/types/types.go and the state of x/kyc/keeper/keeper.go. Scores, days and hours are `int`
-- words. A rule's Parameters are written once and never read, so they are left out.
use ftg_chain.Base.{ℕ, Bool, true, Option, List, [], ◌∷◌, String}
use ftg_chain.Base.Dict.{Dict}
use ftg_chain.Base.Time.{Time}

pub record ScreeningResult : Type 0 where
  pub id : String
  pub user_id : String
  pub screening_type : String
  pub provider : String
  pub match_found : Bool
  pub match_score : ℕ
  pub match_details : String
  pub list_name : String
  pub screened_at : Time
  pub expires_at : Time

pub record ComplianceRule : Type 0 where
  pub id : String
  pub name : String
  pub description : String
  pub rule_type : String
  pub enabled : Bool

pub record SuspiciousActivity : Type 0 where
  pub id : String
  pub user_id : String
  pub wallet_id : String
  pub rule_id : String
  pub description : String
  pub severity : String
  pub amount : ℕ
  pub flagged_at : Time
  pub reviewed_at : Option Time
  pub resolution : String

pub record RestrictedJurisdiction : Type 0 where
  pub country_code : String
  pub country_name : String
  pub restriction : String
  pub reason : String
  pub list_source : String

abbrev jurisdiction : String → String → String → String → String → RestrictedJurisdiction
jurisdiction code name restriction reason source = record {
  country_code = code;
  country_name = name;
  restriction = restriction;
  reason = reason;
  list_source = source;
}

abbrev pub default_restricted_jurisdictions : List RestrictedJurisdiction
default_restricted_jurisdictions =
    jurisdiction "KP" "North Korea" "blocked" "OFAC comprehensive sanctions" "OFAC"
    ∷ jurisdiction "IR" "Iran" "blocked" "OFAC comprehensive sanctions" "OFAC"
    ∷ jurisdiction "SY" "Syria" "blocked" "OFAC comprehensive sanctions" "OFAC"
    ∷ jurisdiction "CU" "Cuba" "blocked" "OFAC comprehensive sanctions" "OFAC"
    ∷ jurisdiction "RU" "Russia" "blocked" "OFAC sectoral sanctions" "OFAC"
    ∷ jurisdiction "BY" "Belarus" "blocked" "EU sanctions" "EU"
    ∷ jurisdiction "MM" "Myanmar" "enhanced_dd" "FATF grey list" "FATF"
    ∷ jurisdiction "YE" "Yemen" "enhanced_dd" "FATF grey list" "FATF"
    ∷ jurisdiction "AF" "Afghanistan" "blocked" "FATF black list" "FATF"
    ∷ jurisdiction "VE" "Venezuela" "enhanced_dd" "OFAC targeted sanctions" "OFAC"
    ∷ []

pub record ComplianceConfig : Type 0 where
  pub sanctions_provider : String
  pub pep_provider : String
  pub large_transaction_threshold : ℕ
  pub structuring_window : ℕ
  pub structuring_threshold : ℕ
  pub sanctions_rescreen_days : ℕ
  pub pep_rescreen_days : ℕ
  pub auto_freeze_on_sanctions : Bool
  pub auto_freeze_on_high_risk : Bool
  pub high_risk_score_threshold : ℕ

abbrev pub default_compliance_config : ComplianceConfig
default_compliance_config = record {
  sanctions_provider = "internal";
  pep_provider = "internal";
  large_transaction_threshold = 10000000000;
  structuring_window = 24;
  structuring_threshold = 9500000000;
  sanctions_rescreen_days = 30;
  pep_rescreen_days = 90;
  auto_freeze_on_sanctions = true;
  auto_freeze_on_high_risk = true;
  high_risk_score_threshold = 70;
}

pub record Keeper : Type 0 where
  pub screenings : Dict ScreeningResult
  pub rules : Dict ComplianceRule
  pub suspicious_flags : List SuspiciousActivity
  pub jurisdictions : List RestrictedJurisdiction
  pub config : ComplianceConfig
  pub screening_seq : ℕ
  pub flag_seq : ℕ

abbrev rule : String → String → String → String → ComplianceRule
rule id name description rule_type = record {
  id = id;
  name = name;
  description = description;
  rule_type = rule_type;
  enabled = true;
}

-- initDefaultRules
abbrev pub default_rules : Dict ComplianceRule
default_rules =
    (
      "CTR",
      rule "CTR" "Currency Transaction Report" "Flag transactions over $10,000 for CTR filing"
          "threshold",
    )
    ∷ (
      "STRUCTURING",
      rule "STRUCTURING" "Structuring Detection"
          "Detect multiple transactions just below CTR threshold within 24h" "velocity",
    )
    ∷ (
      "VELOCITY",
      rule "VELOCITY" "High Velocity Trading" "Flag unusual trading frequency or volume spikes"
          "velocity",
    )
    ∷ (
      "SANCTIONS_RESCREEN",
      rule "SANCTIONS_RESCREEN" "Periodic Sanctions Re-screening"
          "Re-screen all active users against sanctions lists every 30 days" "pattern",
    )
    ∷ []

-- The keeper of a home directory that holds no saved state.
abbrev pub new_keeper : Keeper
new_keeper = record {
  screenings = [];
  rules = default_rules;
  suspicious_flags = [];
  jurisdictions = default_restricted_jurisdictions;
  config = default_compliance_config;
  screening_seq = 0;
  flag_seq = 0;
}
