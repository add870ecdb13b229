-- ===== src/Compliance/Tests.antt =====
-- Screenings and flags at concrete inputs.
use ftg_chain.Base.{◌≡◌, refl, none, some, List, [], ◌∷◌, ◌++◌, String, arith}
use ftg_chain.Base.Word.{add64, neg64}
use ftg_chain.Base.Dict.{lookup}
use ftg_chain.Base.Sprintf.{sprintf, pad}
use ftg_chain.Base.Result.{ok}
use ftg_chain.Compliance.Types.{Keeper, SuspiciousActivity, new_keeper}
use ftg_chain.Compliance.Screening.{
  screen_user, is_jurisdiction_blocked, screen_user-is_jurisdiction_blocked,
}
use ftg_chain.Compliance.Flags.{
  flag_id, new_flag, check_transaction, get_pending_flags, resolve_flag,
}
use ftg_chain.Compliance.Flags.Reached.{Call, checks, step, run}
use ftg_chain.Compliance.Flags.Review.{check_transaction-resolve_flag}

screen_user-is_jurisdiction_blocked_example :
    let (k', result) = screen_user "sam" "KP" 5 new_keeper in
    (result.match_found ≡ (is_jurisdiction_blocked "KP" new_keeper).0)
    × (lookup result.id k'.screenings ≡ some result)
    × (result.user_id ≡ "sam")
screen_user-is_jurisdiction_blocked_example =
    screen_user-is_jurisdiction_blocked "sam" "KP" 5 new_keeper

abbrev flag : String → String → SuspiciousActivity
flag id user_id = record {
  id = id;
  user_id = user_id;
  wallet_id = "FTG-W-000001";
  rule_id = "CTR";
  description = "Large deposit transaction of 10000000000 uusdc exceeds CTR threshold";
  severity = "medium";
  amount = 10000000000;
  flagged_at = 5;
  reviewed_at = none;
  resolution = "pending";
}

abbrev calls : List Call
calls =
    checks "bea" "FTG-W-000001" 10000000000 "deposit" 5
    ∷ checks "bea" "FTG-W-000001" 9999999999 "deposit" 6
    ∷ []

abbrev reached : Keeper
reached = record new_keeper { flag_seq = 1; suspicious_flags = flag "SAR-000001" "bea" ∷ [] }

abbrev flagged : Keeper
flagged = record reached {
  flag_seq = 2;
  suspicious_flags = flag "SAR-000001" "bea" ∷ flag "SAR-000002" "sam" ∷ [];
}

run-calls : run calls new_keeper ≡ some reached
unfolding run step check_transaction new_flag flag_id sprintf pad neg64 add64 lookup
run-calls = refl

sam_flagged :
    check_transaction "sam" "FTG-W-000001" 10000000000 "deposit" 5 reached
    ≡ some (flagged, some (flag "SAR-000002" "sam"))
unfolding check_transaction new_flag flag_id sprintf pad neg64 add64 lookup
sam_flagged = refl

check_transaction-resolve_flag_example :
    (get_pending_flags flagged ≡ get_pending_flags reached ++ flag "SAR-000002" "sam" ∷ [])
    × ((resolve_flag "SAR-000002" "cleared" 9 flagged).1 ≡ ok tt)
    × (get_pending_flags (resolve_flag "SAR-000002" "cleared" 9 flagged).0
        ≡ get_pending_flags reached)
check_transaction-resolve_flag_example =
    check_transaction-resolve_flag calls "sam" "FTG-W-000001" 10000000000 "deposit" 5 reached
      flagged (flag "SAR-000002" "sam") "cleared" 9 (omega arith) run-calls sam_flagged refl
