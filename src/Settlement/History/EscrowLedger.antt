-- ===== src/Settlement/History/EscrowLedger.antt =====
-- What holds of the escrows and the settlement records after any history of calls.
use native.Mathlib.Nat.{zero-add, suc-add}
use ftg_chain.Base.{
  ℕ, suc, ◌+◌, ◌<◌, ◌≡◌, ◌≢◌, refl, sym, ap, ◌∙◌, String, List, [], ◌∷◌, ◌++◌, false, Option, none,
  some, arith, if◌then◌else◌, str_eq, eq_iff, Bool-cases, inl, inr,
}
use ftg_chain.Base.Word.{half, add64, add64_nat}
use ftg_chain.Base.Dict.{
  lookup, insert, lookup-insert, sum_by, sum_by-insert_zero, sum_by-insert_keep,
  sum_by-insert_raise,
}
use ftg_chain.Base.Fresh.{Fresh, Fresh-new, Fresh-old}
use ftg_chain.Base.Lists.{length}
use ftg_chain.Base.Time.{Time}
use ftg_chain.Settlement.Types.{
  Keeper, EscrowAccount, SettlementRecord, SettlementStatus, is_completed, new_keeper,
}
use ftg_chain.Settlement.Escrows.{escrow_id, new_escrow, new_settlement}
use ftg_chain.Settlement.History.{
  Call, creates_deposit, confirms_deposit, creates_withdrawal, processes_withdrawal, creates_escrow,
  funds_escrow, executes_settlement, refunds_escrow, step, run,
}
use ftg_chain.Settlement.History.Cases.{
  create_deposit_cases, confirm_deposit_cases, create_withdrawal_cases, process_withdrawal_cases,
}
use ftg_chain.Settlement.History.EscrowCases.{
  create_escrow_cases, fund_escrow_cases, execute_settlement_cases, refund_escrow_cases,
}

-- What an escrow adds to the settled total.
abbrev pub settled_amount : EscrowAccount → ℕ
settled_amount e = if is_completed e.status then e.amount_usdc else 0

abbrev pub total_usdc : List SettlementRecord → ℕ
total_usdc [] = 0
total_usdc (r ∷ rs) = add64 r.usdc_amount (total_usdc rs)

total_usdc-snoc :
    (rs : List SettlementRecord) (r : SettlementRecord)
    → total_usdc (rs ++ r ∷ []) ≡ add64 (total_usdc rs) r.usdc_amount
unfolding add64
total_usdc-snoc [] r = omega arith
total_usdc-snoc (x ∷ rs) r = omega (arith, total_usdc-snoc rs r)

-- The number of settlement records of an escrow.
abbrev pub records_of : String → List SettlementRecord → ℕ
records_of id [] = 0
records_of id (r ∷ rs) = (if str_eq r.escrow_id id then 1 else 0) + records_of id rs

records_of-snoc :
    (id : String) (rs : List SettlementRecord) (r : SettlementRecord)
    → records_of id (rs ++ r ∷ []) ≡ records_of id rs + (if str_eq r.escrow_id id then 1 else 0)
records_of-snoc id [] r = omega arith
records_of-snoc id (x ∷ rs) r = omega (arith, records_of-snoc id rs r)

-- 1 if the escrow is there and completed, and else 0.
abbrev pub completions : Option EscrowAccount → ℕ
completions none = 0
completions (some e) = if is_completed e.status then 1 else 0

-- The settled total is the sum of the completed escrows and that of the records, an escrow has one
-- record if it is completed and none if not, and there are numbers left for `room` more.
pub record EscrowLedger (room : ℕ) (k : Keeper) : Type 0 where
  pub within : k.escrow_seq + room < half
  pub fresh : Fresh "ESC-" 6 k.escrow_seq k.escrows
  pub settled : k.total_settled_usdc ≡ sum_by settled_amount k.escrows
  pub recorded : k.total_settled_usdc ≡ total_usdc k.settlements
  pub once : (id : String) → records_of id k.settlements ≡ completions (lookup id k.escrows)

carried :
    {room : ℕ} {k : Keeper} (k' : Keeper)
    → k'.escrow_seq ≡ k.escrow_seq
    → k'.escrows ≡ k.escrows
    → k'.settlements ≡ k.settlements
    → k'.total_settled_usdc ≡ k.total_settled_usdc
    → EscrowLedger (suc room) k
    → EscrowLedger room k'
carried k' s d r t v = record {
  within = let h = v.within in omega arith;
  fresh = rw (s, d) v.fresh;
  settled = rw (d, t) v.settled;
  recorded = rw (r, t) v.recorded;
  once = rw (r, d) v.once;
}

pub not_completed : (s : SettlementStatus) → s ≢ SettlementStatus.completed → is_completed s ≡ false
not_completed SettlementStatus.completed h = absurd (h refl)
not_completed _ h = refl

module _ (room : ℕ) (k : Keeper) (v : EscrowLedger (suc room) k) where
  idle : EscrowLedger room k
  idle = carried k refl refl refl refl v

  -- The next identifier is free.
  pub next_free : lookup (escrow_id (add64 k.escrow_seq 1)) k.escrows ≡ none
  unfolding escrow_id
  next_free =
      let h = v.within in
      let next : add64 k.escrow_seq 1 ≡ k.escrow_seq + 1 = add64_nat k.escrow_seq 1 (omega arith) in
      v.fresh (add64 k.escrow_seq 1) (omega arith) (omega arith)

  -- A change of one escrow that is not completed, neither before nor after.
  once-insert :
      (id : String) (e : EscrowAccount)
      → completions (lookup id k.escrows) ≡ 0
      → is_completed e.status ≡ false
      → (j : String) → records_of j k.settlements ≡ completions (lookup j (insert id e k.escrows))
  once-insert id e before after j = elim (Bool-cases (str_eq id j)) [
    | inl same ↦
        let s : id ≡ j = (eq_iff id j).0 same in
        rw (lookup-insert id j e k.escrows, same, completions, after, ← s) (v.once id ∙ before)
    | inr other ↦ rw (lookup-insert id j e k.escrows, other) (v.once j)
  ]

  created :
      (active : ℕ) (e : EscrowAccount)
      → e.status ≡ SettlementStatus.pending
      → EscrowLedger room (record k {
        escrow_seq = add64 k.escrow_seq 1;
        escrows = insert (escrow_id (add64 k.escrow_seq 1)) e k.escrows;
        active_escrows = active;
      })
  unfolding escrow_id
  created active e st =
      let h = v.within in
      let next : add64 k.escrow_seq 1 ≡ k.escrow_seq + 1 = add64_nat k.escrow_seq 1 (omega arith) in
      record {
        within = omega arith;
        fresh = Fresh-new "ESC-" 6 k.escrow_seq k.escrows e (omega arith) v.fresh;
        settled =
            v.settled
            ∙ sym (
                sum_by-insert_zero settled_amount (escrow_id (add64 k.escrow_seq 1)) e k.escrows
                  next_free (rw st));
        recorded = v.recorded;
        once = once-insert (escrow_id (add64 k.escrow_seq 1)) e (rw next_free) (rw st);
      }

  -- An escrow moves to a status that is not `completed`.
  moves :
      (id : String) (active : ℕ) (old e : EscrowAccount)
      → lookup id k.escrows ≡ some old
      → is_completed old.status ≡ false
      → is_completed e.status ≡ false
      → EscrowLedger room (record k { escrows = insert id e k.escrows; active_escrows = active })
  moves id active old e found before after = record {
    within = let h = v.within in omega arith;
    fresh = Fresh-old "ESC-" 6 k.escrow_seq k.escrows id e old found v.fresh;
    settled =
        v.settled
        ∙ sym (sum_by-insert_keep settled_amount id e old k.escrows found (rw (before, after)));
    recorded = v.recorded;
    once = once-insert id e (rw (found, completions, before)) after;
  }

  completes :
      (id : String) (ftg h : ℕ) (t : Time) (active seq fees : ℕ) (e : EscrowAccount)
      → lookup id k.escrows ≡ some e
      → e.status ≡ SettlementStatus.funded
      → EscrowLedger room (record k {
        escrows =
            insert id
              (record e { status = SettlementStatus.completed; completed_at = some t })
              k.escrows;
        active_escrows = active;
        settlement_seq = seq;
        settlements = k.settlements ++ new_settlement id ftg h t k e ∷ [];
        total_settled_usdc = add64 k.total_settled_usdc e.amount_usdc;
        total_fees_collected = fees;
      })
  unfolding new_settlement
  completes id ftg h t active seq fees e found st =
      let e' : EscrowAccount = record e {
        status = SettlementStatus.completed;
        completed_at = some t;
      } in
      let none_yet : records_of id k.settlements ≡ 0 = v.once id ∙ rw (found, completions, st) in
      record {
        within = let h = v.within in omega arith;
        fresh = Fresh-old "ESC-" 6 k.escrow_seq k.escrows id e' e found v.fresh;
        settled =
            ap (λ a. add64 a e.amount_usdc) v.settled
            ∙ sym (sum_by-insert_raise settled_amount id e' e k.escrows found (ground arith));
        recorded =
            ap (λ a. add64 a e.amount_usdc) v.recorded
            ∙ sym (total_usdc-snoc k.settlements (new_settlement id ftg h t k e));
        once = λ j. elim (Bool-cases (str_eq id j)) [
          | inl same ↦
              let s : id ≡ j = (eq_iff id j).0 same in
              rw
                (
                  records_of-snoc j k.settlements (new_settlement id ftg h t k e),
                  lookup-insert id j e' k.escrows,
                  same,
                  ← s,
                )
                (omega (arith, none_yet))
          | inr other ↦
              rw
                (
                  records_of-snoc j k.settlements (new_settlement id ftg h t k e),
                  lookup-insert id j e' k.escrows,
                  other,
                )
                (omega (arith, v.once j))
        ];
      }

  -- Every call keeps the ledger and uses up one number at most.
  pub step-EscrowLedger : (c : Call) → EscrowLedger room (step c k)
  unfolding step new_escrow
  step-EscrowLedger (creates_deposit w u a m t₁ t₂) =
      create_deposit_cases (EscrowLedger room) k idle w u a m t₁ t₂
        (carried _ refl refl refl refl v)
  step-EscrowLedger (confirms_deposit id r t₁ t₂) =
      confirm_deposit_cases (EscrowLedger room) k idle id r t₁ t₂
        (λ d e st. carried _ refl refl refl refl v) (λ d e st. carried _ refl refl refl refl v)
  step-EscrowLedger (creates_withdrawal w u a m d t) =
      create_withdrawal_cases (EscrowLedger room) k idle w u a m d t
        (carried _ refl refl refl refl v)
  step-EscrowLedger (processes_withdrawal id t) =
      process_withdrawal_cases (EscrowLedger room) k idle id t
        (λ q e st. carried _ refl refl refl refl v)
  step-EscrowLedger (creates_escrow x b s a m t₁ t₂) =
      create_escrow_cases (EscrowLedger room) k idle x b s a m t₁ t₂
        (created _ (new_escrow k x b s a m t₁ t₂) refl)
  step-EscrowLedger (funds_escrow id r t₁ t₂) =
      fund_escrow_cases (EscrowLedger room) k idle id r t₁ t₂
        (λ e l st. moves id _ e _ l (rw st) refl) (λ e l st. moves id _ e _ l (rw st) refl)
  step-EscrowLedger (executes_settlement id f h t) =
      execute_settlement_cases (EscrowLedger room) k idle id f h t
        (λ e l st. completes id f h t _ _ _ e l st)
  step-EscrowLedger (refunds_escrow id r) =
      refund_escrow_cases (EscrowLedger room) k idle id r
        (λ e l st. moves id _ e _ l (not_completed e.status st) refl)

run-EscrowLedger :
    (cs : List Call) (room : ℕ) (k : Keeper)
    → EscrowLedger (length cs + room) k
    → EscrowLedger room (run cs k)
unfolding run
run-EscrowLedger [] room k v = rw (zero-add room) at v
run-EscrowLedger (c ∷ cs) room k v =
    run-EscrowLedger cs room (step c k)
      (step-EscrowLedger (length cs + room) k (rw (suc-add (length cs) room) at v) c)

pub run-new_keeper-EscrowLedger :
    (cs : List Call) (room : ℕ) → length cs + room < half → EscrowLedger room (run cs new_keeper)
unfolding sum_by lookup
run-new_keeper-EscrowLedger cs room h = run-EscrowLedger cs room new_keeper (record {
  within = omega arith;
  fresh = λ n hn above. refl;
  settled = refl;
  recorded = refl;
  once = λ id. refl;
})

-- From a new keeper, after any history of fewer than 2 ^ 63 calls, the settled total is the sum of
-- the settlement records and that of the completed escrows, as an int64.
pub settled_total :
    (cs : List Call)
    → length cs < half
    → let k = run cs new_keeper in
      (k.total_settled_usdc ≡ total_usdc k.settlements)
      × (k.total_settled_usdc ≡ sum_by settled_amount k.escrows)
settled_total cs h =
    let v = run-new_keeper-EscrowLedger cs 0 (omega arith) in (v.recorded, v.settled)

-- From a new keeper, after any history of fewer than 2 ^ 63 calls, an escrow has exactly one
-- settlement record if it is completed, and none if it is not or does not exist: no escrow is paid
-- out twice.
pub settled_once :
    (cs : List Call) (id : String)
    → length cs < half
    → let k = run cs new_keeper in records_of id k.settlements ≡ completions (lookup id k.escrows)
settled_once cs id h = (run-new_keeper-EscrowLedger cs 0 (omega arith)).once id
