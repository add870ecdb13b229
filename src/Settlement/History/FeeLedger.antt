-- ===== src/Settlement/History/FeeLedger.antt =====
-- The fees that any history of calls collects.
use native.Mathlib.Nat.{zero-add, suc-add}
use ftg_chain.Base.{
  ℕ, suc, ◌+◌, ◌<◌, ◌≡◌, refl, sym, ap, ◌∙◌, String, List, [], ◌∷◌, false, some, arith,
  if◌then◌else◌,
}
use ftg_chain.Base.Word.{half, add64, add64_nat}
use ftg_chain.Base.Dict.{
  lookup, insert, sum_by, sum_by-insert_zero, sum_by-insert_keep, sum_by-insert_raise,
}
use ftg_chain.Base.Fresh.{Fresh, Fresh-new, Fresh-old}
use ftg_chain.Base.Lists.{length}
use ftg_chain.Base.Time.{Time}
use ftg_chain.Settlement.Types.{
  Keeper, EscrowAccount, SettlementRecord, SettlementStatus, WithdrawalRequest, WithdrawalStatus,
  is_completed, new_keeper, default_settlement_config,
}
use ftg_chain.Settlement.Withdrawals.{withdrawal_fee, withdrawal_id, new_withdrawal_request}
use ftg_chain.Settlement.Escrows.{escrow_id, new_escrow}
use ftg_chain.Settlement.History.WithdrawalLedger.{is_processed}
use ftg_chain.Settlement.History.EscrowLedger.{not_completed}
use ftg_chain.Settlement.History.{
  Call, creates_deposit, confirms_deposit, creates_withdrawal, processes_withdrawal, creates_escrow,
  funds_escrow, executes_settlement, refunds_escrow, step, run,
}
use ftg_chain.Settlement.History.Cases.{
  create_deposit_cases, confirm_deposit_cases, create_withdrawal_cases, process_withdrawal_cases,
}
use ftg_chain.Settlement.History.EscrowCases.{
  create_escrow_cases, fund_escrow_cases, execute_settlement_cases, refund_escrow_cases,
}

-- What a request and an escrow add to the fees.
abbrev pub request_fee : WithdrawalRequest → ℕ
request_fee w =
    if is_processed w.status then withdrawal_fee default_settlement_config w.amount else 0

abbrev pub escrow_fee : EscrowAccount → ℕ
escrow_fee e = if is_completed e.status then e.fee_usdc else 0

-- The fees are those of the completed requests and of the completed escrows, and there are numbers
-- left for `room` more of each.
pub record FeeLedger (room : ℕ) (k : Keeper) : Type 0 where
  pub requests_within : k.withdrawal_seq + room < half
  pub escrows_within : k.escrow_seq + room < half
  pub requests_fresh : Fresh "WDR-" 6 k.withdrawal_seq k.withdrawals
  pub escrows_fresh : Fresh "ESC-" 6 k.escrow_seq k.escrows
  pub config : k.config ≡ default_settlement_config
  pub total :
      k.total_fees_collected
      ≡ add64 (sum_by request_fee k.withdrawals) (sum_by escrow_fee k.escrows)

carried :
    {room : ℕ} {k : Keeper} (k' : Keeper)
    → k'.withdrawal_seq ≡ k.withdrawal_seq
    → k'.escrow_seq ≡ k.escrow_seq
    → k'.withdrawals ≡ k.withdrawals
    → k'.escrows ≡ k.escrows
    → k'.config ≡ k.config
    → k'.total_fees_collected ≡ k.total_fees_collected
    → FeeLedger (suc room) k
    → FeeLedger room k'
carried k' sw se w e c t v = record {
  requests_within = let h = v.requests_within in omega arith;
  escrows_within = let h = v.escrows_within in omega arith;
  requests_fresh = rw (sw, w) v.requests_fresh;
  escrows_fresh = rw (se, e) v.escrows_fresh;
  config = c ∙ v.config;
  total = rw (w, e, t) v.total;
}

module _ (room : ℕ) (k : Keeper) (v : FeeLedger (suc room) k) where
  idle : FeeLedger room k
  idle = carried k refl refl refl refl refl refl v

  requests :
      (d : WithdrawalRequest)
      → d.status ≡ WithdrawalStatus.pending
      → FeeLedger room (record k {
        withdrawal_seq = add64 k.withdrawal_seq 1;
        withdrawals = insert (withdrawal_id (add64 k.withdrawal_seq 1)) d k.withdrawals;
      })
  unfolding withdrawal_id
  requests d st =
      let h = v.requests_within in
      let next : add64 k.withdrawal_seq 1 ≡ k.withdrawal_seq + 1 =
        add64_nat k.withdrawal_seq 1 (omega arith) in
      record {
        requests_within = omega arith;
        escrows_within = idle.escrows_within;
        requests_fresh =
            Fresh-new "WDR-" 6 k.withdrawal_seq k.withdrawals d (omega arith) v.requests_fresh;
        escrows_fresh = v.escrows_fresh;
        config = v.config;
        total =
            v.total
            ∙ ap (λ n. add64 n (sum_by escrow_fee k.escrows))
                (sym (
                  sum_by-insert_zero request_fee (withdrawal_id (add64 k.withdrawal_seq 1)) d
                    k.withdrawals
                    (v.requests_fresh (add64 k.withdrawal_seq 1) (omega arith) (omega arith))
                    (rw st)));
      }

  opens :
      (active : ℕ) (e : EscrowAccount)
      → e.status ≡ SettlementStatus.pending
      → FeeLedger room (record k {
        escrow_seq = add64 k.escrow_seq 1;
        escrows = insert (escrow_id (add64 k.escrow_seq 1)) e k.escrows;
        active_escrows = active;
      })
  unfolding escrow_id
  opens active e st =
      let h = v.escrows_within in
      let next : add64 k.escrow_seq 1 ≡ k.escrow_seq + 1 = add64_nat k.escrow_seq 1 (omega arith) in
      record {
        requests_within = idle.requests_within;
        escrows_within = omega arith;
        requests_fresh = v.requests_fresh;
        escrows_fresh = Fresh-new "ESC-" 6 k.escrow_seq k.escrows e (omega arith) v.escrows_fresh;
        config = v.config;
        total =
            v.total
            ∙ ap (λ n. add64 (sum_by request_fee k.withdrawals) n)
                (sym (
                  sum_by-insert_zero escrow_fee (escrow_id (add64 k.escrow_seq 1)) e k.escrows
                    (v.escrows_fresh (add64 k.escrow_seq 1) (omega arith) (omega arith)) (rw st)));
      }

  processes :
      (id : String) (t : Time) (withdrawn : ℕ) (d : WithdrawalRequest)
      → lookup id k.withdrawals ≡ some d
      → d.status ≡ WithdrawalStatus.pending
      → FeeLedger room (record k {
        withdrawals =
            insert id
              (record d { status = WithdrawalStatus.completed; processed_at = some t })
              k.withdrawals;
        total_withdrawn = withdrawn;
        total_fees_collected = add64 k.total_fees_collected (withdrawal_fee k.config d.amount);
      })
  unfolding add64
  processes id t withdrawn d found st =
      let raise =
        sum_by-insert_raise request_fee id
          (record d { status = WithdrawalStatus.completed; processed_at = some t }) d k.withdrawals
          found (ground arith) in
      record {
        requests_within = idle.requests_within;
        escrows_within = idle.escrows_within;
        requests_fresh =
            Fresh-old "WDR-" 6 k.withdrawal_seq k.withdrawals id _ d found v.requests_fresh;
        escrows_fresh = v.escrows_fresh;
        config = v.config;
        total =
            ap (λ c. add64 k.total_fees_collected (withdrawal_fee c d.amount)) v.config
            ∙ (let t = v.total in omega (arith, t, raise));
      }

  moves :
      (id : String) (active : ℕ) (old e : EscrowAccount)
      → lookup id k.escrows ≡ some old
      → is_completed old.status ≡ false
      → is_completed e.status ≡ false
      → FeeLedger room (record k { escrows = insert id e k.escrows; active_escrows = active })
  moves id active old e found before after = record {
    requests_within = idle.requests_within;
    escrows_within = idle.escrows_within;
    requests_fresh = v.requests_fresh;
    escrows_fresh = Fresh-old "ESC-" 6 k.escrow_seq k.escrows id e old found v.escrows_fresh;
    config = v.config;
    total =
        v.total
        ∙ ap (λ n. add64 (sum_by request_fee k.withdrawals) n)
            (sym (sum_by-insert_keep escrow_fee id e old k.escrows found (rw (before, after))));
  }

  completes :
      (id : String) (t : Time) (active seq settled : ℕ) (rs : List SettlementRecord)
      (e : EscrowAccount)
      → lookup id k.escrows ≡ some e
      → e.status ≡ SettlementStatus.funded
      → FeeLedger room (record k {
        escrows =
            insert id
              (record e { status = SettlementStatus.completed; completed_at = some t })
              k.escrows;
        active_escrows = active;
        settlement_seq = seq;
        settlements = rs;
        total_settled_usdc = settled;
        total_fees_collected = add64 k.total_fees_collected e.fee_usdc;
      })
  unfolding add64
  completes id t active seq settled rs e found st =
      let e' : EscrowAccount = record e {
        status = SettlementStatus.completed;
        completed_at = some t;
      } in
      let raise = sum_by-insert_raise escrow_fee id e' e k.escrows found (ground arith) in
      record {
        requests_within = idle.requests_within;
        escrows_within = idle.escrows_within;
        requests_fresh = v.requests_fresh;
        escrows_fresh = Fresh-old "ESC-" 6 k.escrow_seq k.escrows id e' e found v.escrows_fresh;
        config = v.config;
        total = let t = v.total in omega (arith, t, raise);
      }

  -- Every call keeps the ledger and uses up one number of each at most.
  step-FeeLedger : (c : Call) → FeeLedger room (step c k)
  unfolding step new_withdrawal_request new_escrow
  step-FeeLedger (creates_deposit w u a m t₁ t₂) =
      create_deposit_cases (FeeLedger room) k idle w u a m t₁ t₂
        (carried _ refl refl refl refl refl refl v)
  step-FeeLedger (confirms_deposit id r t₁ t₂) =
      confirm_deposit_cases (FeeLedger room) k idle id r t₁ t₂
        (λ d e st. carried _ refl refl refl refl refl refl v)
        (λ d e st. carried _ refl refl refl refl refl refl v)
  step-FeeLedger (creates_withdrawal w u a m d t) =
      create_withdrawal_cases (FeeLedger room) k idle w u a m d t
        (requests (new_withdrawal_request k w u a m d t) refl)
  step-FeeLedger (processes_withdrawal id t) =
      process_withdrawal_cases (FeeLedger room) k idle id t (λ d e st. processes id t _ d e st)
  step-FeeLedger (creates_escrow x b s a m t₁ t₂) =
      create_escrow_cases (FeeLedger room) k idle x b s a m t₁ t₂
        (opens _ (new_escrow k x b s a m t₁ t₂) refl)
  step-FeeLedger (funds_escrow id r t₁ t₂) =
      fund_escrow_cases (FeeLedger room) k idle id r t₁ t₂ (λ e l st. moves id _ e _ l (rw st) refl)
        (λ e l st. moves id _ e _ l (rw st) refl)
  step-FeeLedger (executes_settlement id f h t) =
      execute_settlement_cases (FeeLedger room) k idle id f h t
        (λ e l st. completes id t _ _ _ _ e l st)
  step-FeeLedger (refunds_escrow id r) =
      refund_escrow_cases (FeeLedger room) k idle id r
        (λ e l st. moves id _ e _ l (not_completed e.status st) refl)

run-FeeLedger :
    (cs : List Call) (room : ℕ) (k : Keeper)
    → FeeLedger (length cs + room) k
    → FeeLedger room (run cs k)
unfolding run
run-FeeLedger [] room k v = rw (zero-add room) at v
run-FeeLedger (c ∷ cs) room k v =
    run-FeeLedger cs room (step c k)
      (step-FeeLedger (length cs + room) k (rw (suc-add (length cs) room) at v) c)

-- From a new keeper, after any history of fewer than 2 ^ 63 calls, the collected fees are the sum,
-- as an int64, of the fees of the completed withdrawal requests and of those of the completed
-- escrows.
pub fees_total :
    (cs : List Call)
    → length cs < half
    → let k = run cs new_keeper in
      k.total_fees_collected
      ≡ add64 (sum_by request_fee k.withdrawals) (sum_by escrow_fee k.escrows)
unfolding sum_by lookup add64
fees_total cs h =
    (run-FeeLedger cs 0 new_keeper (record {
      requests_within = omega arith;
      escrows_within = omega arith;
      requests_fresh = λ n hn above. refl;
      escrows_fresh = λ n hn above. refl;
      config = refl;
      total = refl;
    })).total
