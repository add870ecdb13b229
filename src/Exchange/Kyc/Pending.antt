-- ===== src/Exchange/Kyc/Pending.antt =====
-- Histories of the KYC calls of the exchange: any sequence of submissions, approvals and rejections.
use native.Mathlib.Nat.{zero-add, suc-add}
use ftg_chain.Base.{
  ℕ, subst, suc, ◌+◌, ◌<◌, ◌≤◌, ◌≡◌, refl, sym, ◌∙◌, inl, inr, false, Option, none, some, List, [],
  ◌∷◌, String, arith, str_eq, eq_iff, Bool-cases, Option-cases, some_eq,
}
use ftg_chain.Base.Word.{half, add64, add64_nat, slt}
use ftg_chain.Base.Dict.{
  Dict, lookup, insert, count_by, indicator, count_by-insert, count_by-insert_new,
}
use ftg_chain.Base.Fresh.{Fresh, Fresh-new, Fresh-old}
use ftg_chain.Base.Lists.{length}
use ftg_chain.Base.Time.{Time}
use ftg_chain.Exchange.Types.{Keeper, ExchangeWallet, KycApplication, pending, rejected, new_keeper}
use ftg_chain.Exchange.Kyc.{
  kyc_id, is_pending, awaits, has_pending, run_aml_checks, screened, auto_approve, sanction,
  file_kyc, submit_kyc, approve_kyc, reject_kyc,
}

pub data Call : Type 0 where
  submits : KycApplication → Time → Call
  approves : String → Time → Call
  rejects : String → String → Time → Call

-- A call that dereferences a nil pointer stops the process.
unfoldable pub step : Call → Keeper → Option Keeper
step (submits app now) k = some (submit_kyc app now k).0
step (approves id now) k = elim (approve_kyc id now k) [ none ↦ none | some x ↦ some x.0 ]
step (rejects id reason now) k = some (reject_kyc id reason now k).0

unfoldable pub run : List Call → Keeper → Option Keeper
run [] k = some k
run (c ∷ cs) k = elim (step c k) [ none ↦ none | some k' ↦ run cs k' ]

has_pending-count_by :
    (u : String) (m : Dict KycApplication) → has_pending u m ≡ false → count_by (awaits u) m ≡ 0
unfolding has_pending count_by
has_pending-count_by u [] h = refl
has_pending-count_by u ((id, app) ∷ m) h = ground (arith, has_pending-count_by u m)

-- The numbers that are left, and the applications of each user.
pub record OnePending (room : ℕ) (k : Keeper) : Type 0 where
  pub within : k.kyc_seq + room < half
  pub fresh : Fresh "FTG-KYC-" 6 k.kyc_seq k.kyc_apps
  pub once : (u : String) → count_by (awaits u) k.kyc_apps ≤ 1

run_aml_checks-names :
    (a : KycApplication) → ((run_aml_checks a).id ≡ a.id) × ((run_aml_checks a).user_id ≡ a.user_id)
unfolding run_aml_checks
run_aml_checks-names a = ground arith

auto_approve-names :
    (t : Time) (a : KycApplication)
    → ((auto_approve t a).id ≡ a.id) × ((auto_approve t a).user_id ≡ a.user_id)
auto_approve-names t a = ground arith

sanction-names :
    (a : KycApplication) → ((sanction a).id ≡ a.id) × ((sanction a).user_id ≡ a.user_id)
sanction-names a = ground arith

-- The filed application stands under the new number and for its user.
filed_as :
    (app : KycApplication) (w : ExchangeWallet) (now : Time) (k : Keeper)
    → ((file_kyc app w now k).1.id ≡ kyc_id (add64 k.kyc_seq 1))
      × ((file_kyc app w now k).1.user_id ≡ app.user_id)
unfolding file_kyc screened
filed_as app w now k =
    let raw : KycApplication = record app {
      id = kyc_id (add64 k.kyc_seq 1);
      status = pending;
      current_tier = w.kyc_tier;
      submitted_at = now;
    } in
    let s = run_aml_checks raw in
    let (i₁, u₁) = run_aml_checks-names raw in
    let (i₂, u₂) = auto_approve-names now s in
    let (i₃, u₃) = sanction-names (auto_approve now s) in (i₃ ∙ i₂ ∙ i₁, u₃ ∙ u₂ ∙ u₁)

module _ (room : ℕ) (k : Keeper) (v : OnePending (suc room) k) where
  idle : OnePending room k
  idle = record { within = let h = v.within in omega arith; fresh = v.fresh; once = v.once }

  -- An application that stops waiting, whatever it was.
  decides :
      (ws : Dict ExchangeWallet) (id : String) (old app : KycApplication)
      → lookup id k.kyc_apps ≡ some old
      → is_pending app.status ≡ false
      → OnePending room (record k { kyc_apps = insert id app k.kyc_apps; wallets = ws })
  decides ws id old app found closed = record {
    within = let h = v.within in omega arith;
    fresh = Fresh-old "FTG-KYC-" 6 k.kyc_seq k.kyc_apps id app old found v.fresh;
    once = λ u.
        let n = v.once u in
        let c = count_by-insert (awaits u) id app old k.kyc_apps found in
        let z : indicator (awaits u) app ≡ 0 = ground (arith, closed) in omega (arith, n, c, z);
  }

  files :
      (ws : Dict ExchangeWallet) (u : String) (app : KycApplication)
      → has_pending u k.kyc_apps ≡ false
      → app.user_id ≡ u
      → OnePending room (record k {
        kyc_seq = add64 k.kyc_seq 1;
        wallets = ws;
        kyc_apps = insert (kyc_id (add64 k.kyc_seq 1)) app k.kyc_apps;
      })
  unfolding kyc_id
  files ws u app none_waits own =
      let h = v.within in
      let next : add64 k.kyc_seq 1 ≡ k.kyc_seq + 1 = add64_nat k.kyc_seq 1 (omega arith) in
      let free : lookup (kyc_id (add64 k.kyc_seq 1)) k.kyc_apps ≡ none =
        v.fresh (add64 k.kyc_seq 1) (omega arith) (omega arith) in
      record {
        within = omega arith;
        fresh = Fresh-new "FTG-KYC-" 6 k.kyc_seq k.kyc_apps app (omega arith) v.fresh;
        once = λ u'.
            let c =
              count_by-insert_new (awaits u') (kyc_id (add64 k.kyc_seq 1)) app k.kyc_apps free in
            elim (Bool-cases (str_eq app.user_id u')) [
              | inl same ↦
                  let s : u ≡ u' = sym own ∙ (eq_iff app.user_id u').0 same in
                  let z : count_by (awaits u') k.kyc_apps ≡ 0 =
                    subst (λ x. count_by (awaits x) k.kyc_apps ≡ 0) s
                      (has_pending-count_by u k.kyc_apps none_waits) in
                  let i : indicator (awaits u') app ≤ 1 = ground arith in omega (arith, c, z, i)
              | inr other ↦
                  let i : indicator (awaits u') app ≡ 0 = rw other refl in
                  omega (arith, c, i, v.once u')
            ];
      }

  file_kyc-OnePending :
      (app : KycApplication) (w : ExchangeWallet) (now : Time)
      → has_pending app.user_id k.kyc_apps ≡ false
      → OnePending room (file_kyc app w now k).0
  unfolding file_kyc
  file_kyc-OnePending app w now none_waits =
      let (i, u) = filed_as app w now k in
      rw i (files _ app.user_id (file_kyc app w now k).1 none_waits u)

  submit_kyc-OnePending :
      (app : KycApplication) (now : Time) → OnePending room (submit_kyc app now k).0
  unfolding submit_kyc
  submit_kyc-OnePending app now = elim (Bool-cases (has_pending app.user_id k.kyc_apps)) [
    | inl waits ↦ rw (waits, submit_kyc) idle
    | inr none_waits ↦ elim (Option-cases (lookup app.wallet_id k.wallets)) [
      | inl missing ↦ rw (none_waits, missing, submit_kyc) idle
      | inr (w, found) ↦ elim (Bool-cases (slt w.kyc_tier app.requested_tier)) [
        | inl above ↦
            rw (none_waits, found, above, submit_kyc) (file_kyc-OnePending app w now none_waits)
        | inr below ↦ rw (none_waits, found, below, submit_kyc) idle
      ]
    ]
  ]

  approve_kyc-OnePending :
      (id : String) (now : Time) (k' : Keeper)
      → step (approves id now) k ≡ some k'
      → OnePending room k'
  unfolding step approve_kyc
  approve_kyc-OnePending id now k' e = elim (Option-cases (lookup id k.kyc_apps)) [
    | inl missing ↦
        let s : some k ≡ some k' = rw (missing, step, approve_kyc) at e in
        subst (OnePending room) (some_eq s) idle
    | inr (app, found) ↦ elim (Bool-cases (is_pending app.status)) [
      | inr closed ↦
          let s : some k ≡ some k' = rw (closed) at (rw (found, step, approve_kyc) at e) in
          subst (OnePending room) (some_eq s) idle
      | inl waits ↦ elim (Option-cases (lookup app.wallet_id k.wallets)) [
        | inl fault ↦
            let s : none ≡ some k' =
              rw (fault) at (rw (waits) at (rw (found, step, approve_kyc) at e)) in
            absurd (cc)
        | inr (w, there) ↦
            let s = rw (there) at (rw (waits) at (rw (found, step, approve_kyc) at e)) in
            subst (OnePending room) (some_eq s) (decides _ id app _ found refl)
      ]
    ]
  ]

  reject_kyc-OnePending :
      (id reason : String) (now : Time) → OnePending room (reject_kyc id reason now k).0
  unfolding reject_kyc
  reject_kyc-OnePending id reason now = elim (Option-cases (lookup id k.kyc_apps)) [
    | inl missing ↦ rw (missing, reject_kyc) idle
    | inr (app, found) ↦
        rw (found, reject_kyc)
          (decides k.wallets id app
            (record app { status = rejected; rejected_reason = reason; reviewed_at = some now })
            found refl)
  ]

  step-OnePending : (c : Call) (k' : Keeper) → step c k ≡ some k' → OnePending room k'
  unfolding step
  step-OnePending (submits app now) k' e =
      subst (OnePending room) (some_eq e) (submit_kyc-OnePending app now)
  step-OnePending (approves id now) k' e = approve_kyc-OnePending id now k' e
  step-OnePending (rejects id reason now) k' e =
      subst (OnePending room) (some_eq e) (reject_kyc-OnePending id reason now)

run-OnePending :
    (cs : List Call) (room : ℕ) (k k' : Keeper)
    → OnePending (length cs + room) k
    → run cs k ≡ some k'
    → OnePending room k'
unfolding run
run-OnePending [] room k k' v e = subst (OnePending room) (some_eq e) (rw (zero-add room) at v)
run-OnePending (c ∷ cs) room k k' v e = elim (Option-cases (step c k)) [
  | inl fault ↦ let s : none ≡ some k' = rw (fault, run) at e in absurd (cc)
  | inr (k₁, done) ↦
      run-OnePending cs room k₁ k'
        (step-OnePending (length cs + room) k (rw (suc-add (length cs) room) at v) c k₁ done)
        (rw (done, run) at e)
]

-- From a new keeper with any wallets, after any history of fewer than 2 ^ 63 submissions, approvals
-- and rejections that dereferences no nil pointer, no user has two applications that wait.
pub one_pending :
    (ws : Dict ExchangeWallet) (cs : List Call) (u : String) (k : Keeper)
    → length cs < half
    → run cs (record new_keeper { wallets = ws }) ≡ some k
    → count_by (awaits u) k.kyc_apps ≤ 1
unfolding count_by lookup
one_pending ws cs u k h e =
    (run-OnePending cs 0 (record new_keeper { wallets = ws }) k
        (record { within = omega arith; fresh = λ n hn above. refl; once = λ u'. omega arith })
        e).once
      u
