-- ===== src/Settlement/History/DepositLedger.antt =====
-- What holds of the deposits after any history of calls.
use ftg_chain.Base.{
  ℕ, suc, ◌+◌, ◌<◌, ◌≡◌, refl, sym, ap, ◌∙◌, String, List, [], ◌∷◌, Bool, true, false, some, arith,
  if◌then◌else◌,
}
use ftg_chain.Base.Word.{half, add64, add64_nat}
use ftg_chain.Base.Dict.{
  lookup, insert, sum_by, sum_by-insert_zero, sum_by-insert_keep, sum_by-insert_raise,
}
use ftg_chain.Base.Fresh.{Fresh, Fresh-new, Fresh-old}
use ftg_chain.Base.Lists.{length}
use ftg_chain.Base.Time.{Time}
use native.Mathlib.Nat.{zero-add, suc-add}
use ftg_chain.Settlement.Types.{Keeper, DepositIntent, DepositStatus, new_keeper}
use ftg_chain.Settlement.Deposits.{deposit_id, new_deposit_intent}
use ftg_chain.Settlement.History.{
  Call, creates_deposit, confirms_deposit, creates_withdrawal, processes_withdrawal, creates_escrow,
  funds_escrow, executes_settlement, refunds_escrow, step, run,
}
use ftg_chain.Settlement.History.Cases.{
  create_deposit_cases, confirm_deposit_cases, create_withdrawal_cases, process_withdrawal_cases,
}
use ftg_chain.Settlement.History.EscrowCases.{
  create_escrow_cases, fund_escrow_cases, execute_settlement_cases, refund_escrow_cases,
}

abbrev is_confirmed : DepositStatus → Bool
is_confirmed DepositStatus.confirmed = true
is_confirmed _ = false

-- What an intent adds to the deposited total.
abbrev pub confirmed_amount : DepositIntent → ℕ
confirmed_amount d = if is_confirmed d.status then d.amount else 0

-- The total is the sum of the confirmed deposits, and there are numbers left for `room` more.
pub record DepositLedger (room : ℕ) (k : Keeper) : Type 0 where
  pub within : k.deposit_seq + room < half
  pub fresh : Fresh "DEP-" 6 k.deposit_seq k.deposits
  pub total : k.total_deposited ≡ sum_by confirmed_amount k.deposits

-- The ledger reads three fields only.
carried :
    {room : ℕ} {k : Keeper} (k' : Keeper)
    → k'.deposit_seq ≡ k.deposit_seq
    → k'.deposits ≡ k.deposits
    → k'.total_deposited ≡ k.total_deposited
    → DepositLedger (suc room) k
    → DepositLedger room k'
carried k' s d t v = record {
  within = let h = v.within in omega arith;
  fresh = rw (s, d) v.fresh;
  total = rw (d, t) v.total;
}

module _ (room : ℕ) (k : Keeper) (v : DepositLedger (suc room) k) where
  created :
      (d : DepositIntent)
      → d.status ≡ DepositStatus.pending
      → DepositLedger room (record k {
        deposit_seq = add64 k.deposit_seq 1;
        deposits = insert (deposit_id (add64 k.deposit_seq 1)) d k.deposits;
      })
  unfolding deposit_id
  created d st =
      let h = v.within in
      let next : add64 k.deposit_seq 1 ≡ k.deposit_seq + 1 =
        add64_nat k.deposit_seq 1 (omega arith) in
      record {
        within = omega arith;
        fresh = Fresh-new "DEP-" 6 k.deposit_seq k.deposits d (omega arith) v.fresh;
        total =
            v.total
            ∙ sym (
                sum_by-insert_zero confirmed_amount (deposit_id (add64 k.deposit_seq 1)) d
                  k.deposits (v.fresh (add64 k.deposit_seq 1) (omega arith) (omega arith)) (rw st));
      }

  expires :
      (id : String) (d : DepositIntent)
      → lookup id k.deposits ≡ some d
      → d.status ≡ DepositStatus.pending
      → DepositLedger room (record k {
        deposits = insert id (record d { status = DepositStatus.expired }) k.deposits;
      })
  expires id d e st = record {
    within = let h = v.within in omega arith;
    fresh = Fresh-old "DEP-" 6 k.deposit_seq k.deposits id _ d e v.fresh;
    total = v.total ∙ sym (sum_by-insert_keep confirmed_amount id _ d k.deposits e (ground arith));
  }

  confirms :
      (id r : String) (t : Time) (d : DepositIntent)
      → lookup id k.deposits ≡ some d
      → d.status ≡ DepositStatus.pending
      → DepositLedger room (record k {
        deposits =
            insert id
              (record d {
                status = DepositStatus.confirmed;
                payment_ref = r;
                confirmed_at = some t;
              })
              k.deposits;
        total_deposited = add64 k.total_deposited d.amount;
      })
  confirms id r t d e st = record {
    within = let h = v.within in omega arith;
    fresh = Fresh-old "DEP-" 6 k.deposit_seq k.deposits id _ d e v.fresh;
    total =
        ap (λ a. add64 a d.amount) v.total
        ∙ sym (sum_by-insert_raise confirmed_amount id _ d k.deposits e (ground arith));
  }

  -- Every call keeps the ledger and uses up one number at most.
  step-DepositLedger : (c : Call) → DepositLedger room (step c k)
  unfolding step new_deposit_intent
  step-DepositLedger (creates_deposit w u a m t₁ t₂) =
      create_deposit_cases (DepositLedger room) k (carried k refl refl refl v) w u a m t₁ t₂
        (created (new_deposit_intent k w u a m t₁ t₂) refl)
  step-DepositLedger (confirms_deposit id r t₁ t₂) =
      confirm_deposit_cases (DepositLedger room) k (carried k refl refl refl v) id r t₁ t₂
        (expires id) (confirms id r t₂)
  step-DepositLedger (creates_withdrawal w u a m d t) =
      create_withdrawal_cases (DepositLedger room) k (carried k refl refl refl v) w u a m d t
        (carried _ refl refl refl v)
  step-DepositLedger (processes_withdrawal id t) =
      process_withdrawal_cases (DepositLedger room) k (carried k refl refl refl v) id t
        (λ q e st. carried _ refl refl refl v)
  step-DepositLedger (creates_escrow x b s a m t₁ t₂) =
      create_escrow_cases (DepositLedger room) k (carried k refl refl refl v) x b s a m t₁ t₂
        (carried _ refl refl refl v)
  step-DepositLedger (funds_escrow id r t₁ t₂) =
      fund_escrow_cases (DepositLedger room) k (carried k refl refl refl v) id r t₁ t₂
        (λ e l st. carried _ refl refl refl v) (λ e l st. carried _ refl refl refl v)
  step-DepositLedger (executes_settlement id f h t) =
      execute_settlement_cases (DepositLedger room) k (carried k refl refl refl v) id f h t
        (λ e l st. carried _ refl refl refl v)
  step-DepositLedger (refunds_escrow id r) =
      refund_escrow_cases (DepositLedger room) k (carried k refl refl refl v) id r
        (λ e l st. carried _ refl refl refl v)

run-DepositLedger :
    (cs : List Call) (room : ℕ) (k : Keeper)
    → DepositLedger (length cs + room) k
    → DepositLedger room (run cs k)
unfolding run
run-DepositLedger [] room k v = rw (zero-add room) at v
run-DepositLedger (c ∷ cs) room k v =
    run-DepositLedger cs room (step c k)
      (step-DepositLedger (length cs + room) k (rw (suc-add (length cs) room) at v) c)

pub run-new_keeper-DepositLedger :
    (cs : List Call) → length cs < half → DepositLedger 0 (run cs new_keeper)
unfolding sum_by lookup
run-new_keeper-DepositLedger cs h =
    run-DepositLedger cs 0 new_keeper
      (record { within = omega arith; fresh = λ n hn above. refl; total = refl })

-- From a new keeper, after any history of fewer than 2 ^ 63 calls, the deposited total is the sum,
-- as an int64, of the amounts of the confirmed deposits.
pub deposited_total :
    (cs : List Call)
    → length cs < half
    → (run cs new_keeper).total_deposited ≡ sum_by confirmed_amount (run cs new_keeper).deposits
deposited_total cs h = (run-new_keeper-DepositLedger cs h).total
