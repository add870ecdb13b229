-- ===== src/Compliance/Screening.antt =====
-- ScreenUser, IsJurisdictionBlocked and GetUserScreenings of x/kyc/keeper/keeper.go. A call's
-- readings of the clock are taken as one. The name and the identity number are never read.
use Prim.Native.String.{◌++◌ as ◌<>◌}
use ftg_chain.Base.{
  ℕ, ◌≡◌, refl, sym, ap, ◌∙◌, inl, inr, Bool, true, false, ◌&&◌, Option, none, some, List, [], ◌∷◌,
  String, str_eq, if◌then◌else◌, Bool-cases,
}
use ftg_chain.Base.Word.{add64}
use ftg_chain.Base.Dict.{lookup, insert, values_where, lookup-insert_self}
use ftg_chain.Base.Sprintf.{sprintf}
use ftg_chain.Base.Time.{Time, add_days}
use ftg_chain.Compliance.Types.{Keeper, ScreeningResult, RestrictedJurisdiction, ComplianceConfig}

unfoldable pub screening_id : ℕ → String
unfolding sprintf
screening_id = sprintf "SCR-" 6

-- The first jurisdiction that blocks the country.
unfoldable pub blocking : String → List RestrictedJurisdiction → Option RestrictedJurisdiction
blocking country [] = none
blocking country (j ∷ js) =
    if str_eq j.country_code country && str_eq j.restriction "blocked"
    then some j
    else blocking country js

unfoldable pub blocked_result :
    RestrictedJurisdiction → String → ℕ → ComplianceConfig → Time → ScreeningResult
blocked_result j user_id seq config now = record {
  id = screening_id seq;
  user_id = user_id;
  screening_type = "sanctions";
  provider = "internal_jurisdiction_check";
  match_found = true;
  match_score = 100;
  match_details =
      "Country "
      <> (j.country_name <> (" (" <> (j.country_code <> (") is blocked: " <> j.reason))));
  list_name = j.list_source;
  screened_at = now;
  expires_at = add_days now config.sanctions_rescreen_days;
}

unfoldable pub clear_result : String → ℕ → ComplianceConfig → Time → ScreeningResult
clear_result user_id seq config now = record {
  id = screening_id seq;
  user_id = user_id;
  screening_type = "sanctions";
  provider = config.sanctions_provider;
  match_found = false;
  match_score = 0;
  match_details = "No matches found against OFAC SDN, EU Consolidated, UN sanctions lists";
  list_name = "OFAC+EU+UN";
  screened_at = now;
  expires_at = add_days now config.sanctions_rescreen_days;
}

-- The two ways in which ScreenUser ends.
unfoldable pub result_for :
    Option RestrictedJurisdiction → String → ℕ → ComplianceConfig → Time → ScreeningResult
unfolding blocked_result clear_result
result_for (some j) user_id seq config now = blocked_result j user_id seq config now
result_for none user_id seq config now = clear_result user_id seq config now

unfoldable pub screen_user : String → String → Time → Keeper → Keeper × ScreeningResult
unfolding result_for blocking
screen_user user_id country now k =
    let seq = add64 k.screening_seq 1 in
    let result = result_for (blocking country k.jurisdictions) user_id seq k.config now in
    (
      record k { screening_seq = seq; screenings = insert (screening_id seq) result k.screenings },
      result,
    )

-- The loop of IsJurisdictionBlocked.
unfoldable pub blocked_in : String → List RestrictedJurisdiction → Bool × String
blocked_in country [] = (false, "")
blocked_in country (j ∷ js) =
    if str_eq j.country_code country
    then (if str_eq j.restriction "blocked" then (true, j.reason) else blocked_in country js)
    else blocked_in country js

unfoldable pub is_jurisdiction_blocked : String → Keeper → Bool × String
unfolding blocked_in
is_jurisdiction_blocked country k = blocked_in country k.jurisdictions

-- Go walks the map in no fixed order: the model's order is that of the first writes.
unfoldable pub get_user_screenings : String → Keeper → List ScreeningResult
get_user_screenings user_id k = values_where (λ s. str_eq s.user_id user_id) k.screenings

verdict : Option RestrictedJurisdiction → Bool × String
verdict none = (false, "")
verdict (some j) = (true, j.reason)

blocking-blocked_in :
    (country : String) (js : List RestrictedJurisdiction)
    → blocked_in country js ≡ verdict (blocking country js)
unfolding blocking blocked_in verdict
blocking-blocked_in country [] = refl
blocking-blocked_in country (j ∷ js) = elim (Bool-cases (str_eq j.country_code country)) [
  | inr other ↦ rw other (blocking-blocked_in country js)
  | inl same ↦ elim (Bool-cases (str_eq j.restriction "blocked")) [
    | inl hit ↦ rw (same, hit) refl
    | inr free ↦ rw (same, free) (blocking-blocked_in country js)
  ]
]

result_for-lem :
    (o : Option RestrictedJurisdiction) (user_id : String) (seq : ℕ) (config : ComplianceConfig)
    (now : Time)
    → let result = result_for o user_id seq config now in
      (result.match_found ≡ (verdict o).0)
      × (result.id ≡ screening_id seq)
      × (result.user_id ≡ user_id)
unfolding result_for blocked_result clear_result verdict
result_for-lem none user_id seq config now = (refl, refl, refl)
result_for-lem (some j) user_id seq config now = (refl, refl, refl)

-- A screening of a user finds a match exactly if IsJurisdictionBlocked says that the country is
-- blocked, and it is stored under its own identifier, for that user.
pub screen_user-is_jurisdiction_blocked :
    (user_id country : String) (now : Time) (k : Keeper)
    → let (k', result) = screen_user user_id country now k in
      (result.match_found ≡ (is_jurisdiction_blocked country k).0)
      × (lookup result.id k'.screenings ≡ some result)
      × (result.user_id ≡ user_id)
unfolding screen_user is_jurisdiction_blocked
screen_user-is_jurisdiction_blocked user_id country now k =
    let seq = add64 k.screening_seq 1 in
    let result = result_for (blocking country k.jurisdictions) user_id seq k.config now in
    let (found, id, user) =
      result_for-lem (blocking country k.jurisdictions) user_id seq k.config now in
    (
      found ∙ ap (λ x. x.0) (sym (blocking-blocked_in country k.jurisdictions)),
      ap (λ j. lookup j (insert (screening_id seq) result k.screenings)) id
          ∙ lookup-insert_self (screening_id seq) result k.screenings,
      user,
    )
