-- ===== src/Settlement/History/Active.antt =====
-- The count of the active escrows.
use native.Mathlib.Nat.{suc-add}
use ftg_chain.Base.{
  ℕ, suc, ◌+◌, ◌<◌, ◌%◌, ◌≡◌, refl, String, List, [], ◌∷◌, Bool, true, false, ◌||◌, none, some,
  arith,
}
use ftg_chain.Base.Word.{half, word, add64, sub64}
use ftg_chain.Base.Dict.{lookup, insert, count_by, count_by-insert, count_by-insert_new}
use ftg_chain.Base.Lists.{length, All}
use ftg_chain.Base.Result.{ok}
use ftg_chain.Settlement.Types.{
  Keeper, EscrowAccount, SettlementStatus, is_pending, is_funded, new_keeper,
}
use ftg_chain.Settlement.Escrows.{escrow_id, new_escrow, refund_escrow}
use ftg_chain.Settlement.History.{
  Call, creates_deposit, confirms_deposit, creates_withdrawal, processes_withdrawal, creates_escrow,
  funds_escrow, executes_settlement, refunds_escrow, step, run,
}
use ftg_chain.Settlement.History.Cases.{
  create_deposit_cases, confirm_deposit_cases, create_withdrawal_cases, process_withdrawal_cases,
}
use ftg_chain.Settlement.History.EscrowCases.{
  create_escrow_cases, fund_escrow_cases, execute_settlement_cases,
}
use ftg_chain.Settlement.History.EscrowLedger.{
  EscrowLedger, step-EscrowLedger, run-new_keeper-EscrowLedger, next_free,
}

-- An escrow that still holds or awaits money.
abbrev pub is_active : EscrowAccount → Bool
is_active e = is_funded e.status || is_pending e.status

abbrev pub is_refund : Call → Bool
is_refund (refunds_escrow id r) = true
is_refund _ = false

-- The counter is `extra` above the number of the active escrows, as a word.
abbrev pub Counted : ℕ → Keeper → Type 0
Counted extra k = k.active_escrows ≡ (count_by is_active k.escrows + extra) % word

module _ (extra : ℕ) (k : Keeper) (v : Counted extra k) where
  opens :
      (id : String) (e : EscrowAccount)
      → lookup id k.escrows ≡ none
      → is_active e ≡ true
      → add64 k.active_escrows 1 ≡ (count_by is_active (insert id e k.escrows) + extra) % word
  unfolding add64
  opens id e free live = ground (arith, count_by-insert_new is_active id e k.escrows free)

  closes :
      (id : String) (old e : EscrowAccount)
      → lookup id k.escrows ≡ some old
      → is_active old ≡ true
      → is_active e ≡ false
      → sub64 k.active_escrows 1 ≡ (count_by is_active (insert id e k.escrows) + extra) % word
  unfolding sub64
  closes id old e found live dead =
      ground (arith, count_by-insert is_active id e old k.escrows found)

  keeps :
      (id : String) (old e : EscrowAccount)
      → lookup id k.escrows ≡ some old
      → is_active old ≡ true
      → is_active e ≡ true
      → k.active_escrows ≡ (count_by is_active (insert id e k.escrows) + extra) % word
  keeps id old e found live still =
      ground (arith, count_by-insert is_active id e old k.escrows found)

  step-Counted :
      (c : Call)
      → lookup (escrow_id (add64 k.escrow_seq 1)) k.escrows ≡ none
      → is_refund c ≡ false
      → Counted extra (step c k)
  unfolding step new_escrow
  step-Counted (creates_deposit w u a m t₁ t₂) free other =
      create_deposit_cases (Counted extra) k v w u a m t₁ t₂ v
  step-Counted (confirms_deposit j r t₁ t₂) free other =
      confirm_deposit_cases (Counted extra) k v j r t₁ t₂ (λ d l st. v) (λ d l st. v)
  step-Counted (creates_withdrawal w u a m d t) free other =
      create_withdrawal_cases (Counted extra) k v w u a m d t v
  step-Counted (processes_withdrawal j t) free other =
      process_withdrawal_cases (Counted extra) k v j t (λ q l st. v)
  step-Counted (creates_escrow x b s a m t₁ t₂) free other =
      create_escrow_cases (Counted extra) k v x b s a m t₁ t₂
        (opens _ (new_escrow k x b s a m t₁ t₂) free refl)
  step-Counted (funds_escrow j r t₁ t₂) free other =
      fund_escrow_cases (Counted extra) k v j r t₁ t₂ (λ o l st. closes j o _ l (rw st) refl)
        (λ o l st. keeps j o _ l (rw st) refl)
  step-Counted (executes_settlement j f h t) free other =
      execute_settlement_cases (Counted extra) k v j f h t (λ o l st. closes j o _ l (rw st) refl)
  step-Counted (refunds_escrow j r) free other = cc

run-Counted :
    (extra : ℕ) (cs : List Call) (k : Keeper)
    → EscrowLedger (length cs + 0) k
    → Counted extra k
    → All (λ c. is_refund c ≡ false) cs
    → Counted extra (run cs k)
unfolding run
run-Counted extra [] k l v none_refunded = v
run-Counted extra (c ∷ cs) k l v none_refunded =
    let l' : EscrowLedger (suc (length cs + 0)) k = rw (suc-add (length cs) 0) at l in
    run-Counted extra cs (step c k) (step-EscrowLedger (length cs + 0) k l' c)
      (step-Counted extra k v c (next_free (length cs + 0) k l') none_refunded.0) none_refunded.1

-- From a new keeper, after fewer than 2 ^ 63 calls of which none is a refund, ActiveEscrows is the
-- number of the escrows that are pending or funded.
pub active_escrows_counted :
    (cs : List Call)
    → length cs < half
    → All (λ c. is_refund c ≡ false) cs
    → (run cs new_keeper).active_escrows ≡ count_by is_active (run cs new_keeper).escrows % word
unfolding count_by run
active_escrows_counted cs h none_refunded =
    let counted =
      run-Counted 0 cs new_keeper (run-new_keeper-EscrowLedger [] (length cs + 0) (omega arith))
        refl none_refunded in
    omega (arith, counted)

-- A refund of an escrow that is there and is pending or funded.
refund_escrow-active :
    (id reason : String) (k : Keeper) (e : EscrowAccount)
    → lookup id k.escrows ≡ some e
    → is_active e ≡ true
    → let (k', result) = refund_escrow id reason k in
      (result ≡ ok tt)
      × (k'.active_escrows ≡ k.active_escrows)
      × (count_by is_active k'.escrows + 1 ≡ count_by is_active k.escrows)
unfolding refund_escrow
refund_escrow-active id reason k e found live =
    let e' : EscrowAccount = record e { status = SettlementStatus.refunded } in
    let fewer = count_by-insert is_active id e' e k.escrows found in
    (ground (arith, found), ground (arith, found), ground (arith, found, fewer))

-- From a new keeper and while there are fewer than 2 ^ 63 calls: if the first refund is one of a
-- pending or funded escrow, it succeeds, takes one from the escrows that are active and leaves
-- ActiveEscrows as it was; and after any later calls without another refund, ActiveEscrows is one
-- more than the number of the escrows that are pending or funded.
pub refund_escrow_leaks :
    (before later : List Call) (id reason : String) (e : EscrowAccount)
    → length before + suc (length later) < half
    → All (λ c. is_refund c ≡ false) before
    → All (λ c. is_refund c ≡ false) later
    → lookup id (run before new_keeper).escrows ≡ some e
    → is_active e ≡ true
    → let k = run before new_keeper in
      let (k', result) = refund_escrow id reason k in
      let k'' = run later k' in
      (result ≡ ok tt)
      × (k'.active_escrows ≡ k.active_escrows)
      × (count_by is_active k'.escrows + 1 ≡ count_by is_active k.escrows)
      × (k''.active_escrows ≡ (count_by is_active k''.escrows + 1) % word)
unfolding step
refund_escrow_leaks before later id reason e h no_refund no_other found live =
    let k = run before new_keeper in
    let k' = (refund_escrow id reason k).0 in
    let (done, kept, fewer) = refund_escrow-active id reason k e found live in
    let counted = active_escrows_counted before (omega arith) no_refund in
    let l =
      step-EscrowLedger (length later + 0) k
        (run-new_keeper-EscrowLedger before (suc (length later + 0)) (omega arith))
        (refunds_escrow id reason) in
    let off : Counted 1 k' = omega (arith, kept, fewer, counted) in
    (done, kept, fewer, run-Counted 1 later k' l off no_other)
