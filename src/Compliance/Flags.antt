-- ===== src/Compliance/Flags.antt =====
-- CheckTransaction, GetPendingFlags, ResolveFlag and GetComplianceStats of x/kyc/keeper/keeper.go.
-- `none` of CheckTransaction is a nil dereference; a call without a flag has `none` inside.
pub mod Reached
pub mod Review
use Prim.Native.String.{◌++◌ as ◌<>◌}
use ftg_chain.Base.{
  ℕ, suc, ◌+◌, ◌<◌, ◌≡◌, ◌≢◌, refl, sym, ap, ◌∙◌, inl, inr, Bool, true, false, not, ◌&&◌, Option,
  none, some, List, [], ◌∷◌, ◌++◌, String, str_eq, eq_iff, eq_false_of_ne, arith, if◌then◌else◌,
  Bool-cases, Option-cases,
}
use ftg_chain.Base.Word.{add64, sle, half, add64_nat}
use ftg_chain.Base.Dict.{Dict, lookup, size}
use ftg_chain.Base.Sprintf.{sprintf, sprintf-ne, pad}
use ftg_chain.Base.Lists.{length, select, All, All-mono, All-append}
use ftg_chain.Base.Time.{Time}
use ftg_chain.Base.Result.{Result, ok, err}
use ftg_chain.Compliance.Types.{Keeper, SuspiciousActivity, ComplianceRule, new_keeper}

unfoldable pub flag_id : ℕ → String
unfolding sprintf
flag_id = sprintf "SAR-" 6

unfoldable pub new_flag : String → String → ℕ → String → Time → ℕ → SuspiciousActivity
unfolding pad
new_flag user_id wallet_id amount tx_type now seq = record {
  id = flag_id seq;
  user_id = user_id;
  wallet_id = wallet_id;
  rule_id = "CTR";
  description =
      "Large "
      <> (tx_type <> (" transaction of " <> (pad 1 amount <> " uusdc exceeds CTR threshold")));
  severity = "medium";
  amount = amount;
  flagged_at = now;
  reviewed_at = none;
  resolution = "pending";
}

unfoldable pub check_transaction :
    String → String → ℕ → String → Time → Keeper → Option (Keeper × Option SuspiciousActivity)
check_transaction user_id wallet_id amount tx_type now k = elim (lookup "CTR" k.rules) [
  | none ↦ none
  | some rule ↦
      if rule.enabled && sle k.config.large_transaction_threshold amount
      then (let flag = new_flag user_id wallet_id amount tx_type now (add64 k.flag_seq 1) in
          some (
            record k {
              flag_seq = add64 k.flag_seq 1;
              suspicious_flags = k.suspicious_flags ++ flag ∷ [];
            },
            some flag,
          ))
      else some (k, none)
]

abbrev pub is_pending : SuspiciousActivity → Bool
is_pending f = str_eq f.resolution "pending"

unfoldable pub get_pending_flags : Keeper → List SuspiciousActivity
get_pending_flags k = select is_pending k.suspicious_flags

-- The loop of ResolveFlag: the first flag with the identifier is written, if there is one.
unfoldable pub resolve_in :
    String → String → Time → List SuspiciousActivity → Option (List SuspiciousActivity)
resolve_in id resolution now [] = none
resolve_in id resolution now (f ∷ fs) =
    let rest = resolve_in id resolution now fs in
    if str_eq f.id id
    then some (record f { reviewed_at = some now; resolution = resolution } ∷ fs)
    else elim rest [ none ↦ none | some gs ↦ some (f ∷ gs) ]

-- The error shows the identifier.
pub data Error : Type 0 where
  flag_not_found : String → Error

unfoldable pub resolve_flag : String → String → Time → Keeper → Keeper × Result Error (Unit {0})
unfolding resolve_in
resolve_flag id resolution now k = elim (resolve_in id resolution now k.suspicious_flags) [
  | none ↦ (k, err (flag_not_found id))
  | some fs ↦ (record k { suspicious_flags = fs }, ok tt)
]

pub record ComplianceStats : Type 0 where
  pub total_screenings : ℕ
  pub total_flags : ℕ
  pub pending_flags : ℕ
  pub active_rules : ℕ
  pub restricted_countries : ℕ
  pub sanctions_provider : String
  pub ctr_threshold_usdc : ℕ
  pub rescreen_interval_days : ℕ

-- The loop that counts the pending flags.
unfoldable pub count_pending : List SuspiciousActivity → ℕ
count_pending [] = 0
count_pending (f ∷ fs) = if is_pending f then count_pending fs + 1 else count_pending fs

unfoldable pub get_compliance_stats : Keeper → ComplianceStats
unfolding count_pending
get_compliance_stats k = record {
  total_screenings = size k.screenings;
  total_flags = length k.suspicious_flags;
  pending_flags = count_pending k.suspicious_flags;
  active_rules = size k.rules;
  restricted_countries = length k.jurisdictions;
  sanctions_provider = k.config.sanctions_provider;
  ctr_threshold_usdc = k.config.large_transaction_threshold;
  rescreen_interval_days = k.config.sanctions_rescreen_days;
}
