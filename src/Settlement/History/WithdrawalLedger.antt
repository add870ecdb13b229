-- ===== src/Settlement/History/WithdrawalLedger.antt =====
-- What holds of the withdrawals after any history of calls.
use native.Mathlib.Nat.{zero-add, suc-add}
use ftg_chain.Base.{
  ℕ, suc, ◌+◌, ◌<◌, ◌≡◌, refl, sym, ap, ◌∙◌, String, List, [], ◌∷◌, Bool, true, false, some, arith,
  if◌then◌else◌,
}
use ftg_chain.Base.Word.{half, add64, add64_nat}
use ftg_chain.Base.Dict.{lookup, insert, sum_by, sum_by-insert_zero, sum_by-insert_raise}
use ftg_chain.Base.Fresh.{Fresh, Fresh-new, Fresh-old}
use ftg_chain.Base.Lists.{length}
use ftg_chain.Base.Time.{Time}
use ftg_chain.Settlement.Types.{Keeper, WithdrawalRequest, WithdrawalStatus, new_keeper}
use ftg_chain.Settlement.Withdrawals.{withdrawal_id, new_withdrawal_request}
use ftg_chain.Settlement.History.{
  Call, creates_deposit, confirms_deposit, creates_withdrawal, processes_withdrawal, creates_escrow,
  funds_escrow, executes_settlement, refunds_escrow, step, run,
}
use ftg_chain.Settlement.History.Cases.{
  create_deposit_cases, confirm_deposit_cases, create_withdrawal_cases, process_withdrawal_cases,
}
use ftg_chain.Settlement.History.EscrowCases.{
  create_escrow_cases, fund_escrow_cases, execute_settlement_cases, refund_escrow_cases,
}

abbrev pub is_processed : WithdrawalStatus → Bool
is_processed WithdrawalStatus.completed = true
is_processed WithdrawalStatus.pending = false

-- What a request adds to the withdrawn total.
abbrev pub withdrawn_amount : WithdrawalRequest → ℕ
withdrawn_amount w = if is_processed w.status then w.amount else 0

-- The total is the sum of the completed requests, and there are numbers left for `room` more.
pub record WithdrawalLedger (room : ℕ) (k : Keeper) : Type 0 where
  pub within : k.withdrawal_seq + room < half
  pub fresh : Fresh "WDR-" 6 k.withdrawal_seq k.withdrawals
  pub total : k.total_withdrawn ≡ sum_by withdrawn_amount k.withdrawals

carried :
    {room : ℕ} {k : Keeper} (k' : Keeper)
    → k'.withdrawal_seq ≡ k.withdrawal_seq
    → k'.withdrawals ≡ k.withdrawals
    → k'.total_withdrawn ≡ k.total_withdrawn
    → WithdrawalLedger (suc room) k
    → WithdrawalLedger room k'
carried k' s d t v = record {
  within = let h = v.within in omega arith;
  fresh = rw (s, d) v.fresh;
  total = rw (d, t) v.total;
}

module _ (room : ℕ) (k : Keeper) (v : WithdrawalLedger (suc room) k) where
  created :
      (d : WithdrawalRequest)
      → d.status ≡ WithdrawalStatus.pending
      → WithdrawalLedger room (record k {
        withdrawal_seq = add64 k.withdrawal_seq 1;
        withdrawals = insert (withdrawal_id (add64 k.withdrawal_seq 1)) d k.withdrawals;
      })
  unfolding withdrawal_id
  created d st =
      let h = v.within in
      let next : add64 k.withdrawal_seq 1 ≡ k.withdrawal_seq + 1 =
        add64_nat k.withdrawal_seq 1 (omega arith) in
      record {
        within = omega arith;
        fresh = Fresh-new "WDR-" 6 k.withdrawal_seq k.withdrawals d (omega arith) v.fresh;
        total =
            v.total
            ∙ sym (
                sum_by-insert_zero withdrawn_amount (withdrawal_id (add64 k.withdrawal_seq 1)) d
                  k.withdrawals (v.fresh (add64 k.withdrawal_seq 1) (omega arith) (omega arith))
                  (rw st));
      }

  completes :
      (id : String) (t : Time) (fees : ℕ) (d : WithdrawalRequest)
      → lookup id k.withdrawals ≡ some d
      → d.status ≡ WithdrawalStatus.pending
      → WithdrawalLedger room (record k {
        withdrawals =
            insert id
              (record d { status = WithdrawalStatus.completed; processed_at = some t })
              k.withdrawals;
        total_withdrawn = add64 k.total_withdrawn d.amount;
        total_fees_collected = fees;
      })
  completes id t fees d e st = record {
    within = let h = v.within in omega arith;
    fresh = Fresh-old "WDR-" 6 k.withdrawal_seq k.withdrawals id _ d e v.fresh;
    total =
        ap (λ a. add64 a d.amount) v.total
        ∙ sym (sum_by-insert_raise withdrawn_amount id _ d k.withdrawals e (ground arith));
  }

  -- Every call keeps the ledger and uses up one number at most.
  step-WithdrawalLedger : (c : Call) → WithdrawalLedger room (step c k)
  unfolding step new_withdrawal_request
  step-WithdrawalLedger (creates_deposit w u a m t₁ t₂) =
      create_deposit_cases (WithdrawalLedger room) k (carried k refl refl refl v) w u a m t₁ t₂
        (carried _ refl refl refl v)
  step-WithdrawalLedger (confirms_deposit id r t₁ t₂) =
      confirm_deposit_cases (WithdrawalLedger room) k (carried k refl refl refl v) id r t₁ t₂
        (λ d e st. carried _ refl refl refl v) (λ d e st. carried _ refl refl refl v)
  step-WithdrawalLedger (creates_withdrawal w u a m d t) =
      create_withdrawal_cases (WithdrawalLedger room) k (carried k refl refl refl v) w u a m d t
        (created (new_withdrawal_request k w u a m d t) refl)
  step-WithdrawalLedger (processes_withdrawal id t) =
      process_withdrawal_cases (WithdrawalLedger room) k (carried k refl refl refl v) id t
        (λ d e st. completes id t _ d e st)
  step-WithdrawalLedger (creates_escrow x b s a m t₁ t₂) =
      create_escrow_cases (WithdrawalLedger room) k (carried k refl refl refl v) x b s a m t₁ t₂
        (carried _ refl refl refl v)
  step-WithdrawalLedger (funds_escrow id r t₁ t₂) =
      fund_escrow_cases (WithdrawalLedger room) k (carried k refl refl refl v) id r t₁ t₂
        (λ e l st. carried _ refl refl refl v) (λ e l st. carried _ refl refl refl v)
  step-WithdrawalLedger (executes_settlement id f h t) =
      execute_settlement_cases (WithdrawalLedger room) k (carried k refl refl refl v) id f h t
        (λ e l st. carried _ refl refl refl v)
  step-WithdrawalLedger (refunds_escrow id r) =
      refund_escrow_cases (WithdrawalLedger room) k (carried k refl refl refl v) id r
        (λ e l st. carried _ refl refl refl v)

run-WithdrawalLedger :
    (cs : List Call) (room : ℕ) (k : Keeper)
    → WithdrawalLedger (length cs + room) k
    → WithdrawalLedger room (run cs k)
unfolding run
run-WithdrawalLedger [] room k v = rw (zero-add room) at v
run-WithdrawalLedger (c ∷ cs) room k v =
    run-WithdrawalLedger cs room (step c k)
      (step-WithdrawalLedger (length cs + room) k (rw (suc-add (length cs) room) at v) c)

pub run-new_keeper-WithdrawalLedger :
    (cs : List Call) → length cs < half → WithdrawalLedger 0 (run cs new_keeper)
unfolding sum_by lookup
run-new_keeper-WithdrawalLedger cs h =
    run-WithdrawalLedger cs 0 new_keeper
      (record { within = omega arith; fresh = λ n hn above. refl; total = refl })

-- From a new keeper, after any history of fewer than 2 ^ 63 calls, the withdrawn total is the sum,
-- as an int64, of the amounts of the completed withdrawal requests.
pub withdrawn_total :
    (cs : List Call)
    → length cs < half
    → (run cs new_keeper).total_withdrawn ≡ sum_by withdrawn_amount (run cs new_keeper).withdrawals
withdrawn_total cs h = (run-new_keeper-WithdrawalLedger cs h).total
