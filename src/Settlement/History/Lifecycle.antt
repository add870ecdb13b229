-- ===== src/Settlement/History/Lifecycle.antt =====
-- How one escrow may change in a call.
use ftg_chain.Base.{
  ◌+◌, ◌<◌, ◌≡◌, ◌≢◌, refl, sym, ap, ◌∙◌, String, List, Option, none, some, str_eq, eq_iff,
  Bool-cases, inl, inr,
}
use ftg_chain.Base.Word.{half, add64}
use ftg_chain.Base.Dict.{lookup, insert, lookup-insert}
use ftg_chain.Base.Lists.{length}
use ftg_chain.Settlement.Types.{Keeper, EscrowAccount, SettlementStatus, new_keeper}
use ftg_chain.Settlement.Escrows.{escrow_id, new_escrow}
use ftg_chain.Settlement.History.{
  Call, creates_deposit, confirms_deposit, creates_withdrawal, processes_withdrawal, creates_escrow,
  funds_escrow, executes_settlement, refunds_escrow, step, run,
}
use ftg_chain.Settlement.History.Cases.{
  create_deposit_cases, confirm_deposit_cases, create_withdrawal_cases, process_withdrawal_cases,
}
use ftg_chain.Settlement.History.EscrowCases.{
  create_escrow_cases, fund_escrow_cases, execute_settlement_cases, refund_escrow_cases,
}
use ftg_chain.Settlement.History.EscrowLedger.{run-new_keeper-EscrowLedger, next_free}

-- The moves of an escrow's status.
pub data Move : SettlementStatus → SettlementStatus → Type 0 where
  stays : (s : SettlementStatus) → Move s s
  funding : Move SettlementStatus.pending SettlementStatus.funded
  lapsing : Move SettlementStatus.pending SettlementStatus.failed
  paying_out : Move SettlementStatus.funded SettlementStatus.completed
  refunding :
      {s : SettlementStatus} → s ≢ SettlementStatus.completed → Move s SettlementStatus.refunded

-- The parties and the money of an escrow, which no call changes.
pub record SameTerms (e e' : EscrowAccount) : Type 0 where
  pub id : e'.id ≡ e.id
  pub trade : e'.trade_id ≡ e.trade_id
  pub buyer : e'.buyer_wallet_id ≡ e.buyer_wallet_id
  pub seller : e'.seller_wallet_id ≡ e.seller_wallet_id
  pub amount : e'.amount_usdc ≡ e.amount_usdc
  pub fee : e'.fee_usdc ≡ e.fee_usdc

-- The escrow is still there, its status has made one move at most, and its terms are the same.
abbrev pub Evolves : EscrowAccount → Option EscrowAccount → Type 0
Evolves e none = ⊥
Evolves e (some e') = Move e.status e'.status × SameTerms e e'

same_terms :
    (e e' : EscrowAccount)
    → e'.id ≡ e.id
    → e'.trade_id ≡ e.trade_id
    → e'.buyer_wallet_id ≡ e.buyer_wallet_id
    → e'.seller_wallet_id ≡ e.seller_wallet_id
    → e'.amount_usdc ≡ e.amount_usdc
    → e'.fee_usdc ≡ e.fee_usdc
    → SameTerms e e'
same_terms e e' i t b s a f = record {
  id = i;
  trade = t;
  buyer = b;
  seller = s;
  amount = a;
  fee = f;
}

module _ (id : String) (k : Keeper) (e : EscrowAccount) (found : lookup id k.escrows ≡ some e) where
  abbrev Holds : Keeper → Type 0
  Holds k' = Evolves e (lookup id k'.escrows)

  idle : Evolves e (lookup id k.escrows)
  idle = rw found (stays e.status, same_terms e e refl refl refl refl refl refl)

  -- Another escrow is written, or this one by a move.
  writes :
      (j : String) (old new : EscrowAccount)
      → lookup j k.escrows ≡ some old
      → Move old.status new.status
      → SameTerms old new
      → Evolves e (lookup id (insert j new k.escrows))
  writes j old new there m terms = elim (Bool-cases (str_eq j id)) [
    | inl same ↦
        let s : j ≡ id = (eq_iff j id).0 same in
        let o : some old ≡ some e = sym there ∙ ap (λ x. lookup x k.escrows) s ∙ found in
        let p : old ≡ e = cc in rw (lookup-insert j id new k.escrows, same, ← p) (m, terms)
    | inr other ↦ rw (lookup-insert j id new k.escrows, other) idle
  ]

  creates :
      (new : EscrowAccount)
      → lookup (escrow_id (add64 k.escrow_seq 1)) k.escrows ≡ none
      → Evolves e (lookup id (insert (escrow_id (add64 k.escrow_seq 1)) new k.escrows))
  creates new free = elim (Bool-cases (str_eq (escrow_id (add64 k.escrow_seq 1)) id)) [
    | inl same ↦
        let s : escrow_id (add64 k.escrow_seq 1) ≡ id = (eq_iff _ id).0 same in
        let o : none ≡ some e = sym free ∙ ap (λ x. lookup x k.escrows) s ∙ found in absurd (cc)
    | inr other ↦ rw (lookup-insert (escrow_id (add64 k.escrow_seq 1)) id new k.escrows, other) idle
  ]

  evolves :
      (c : Call)
      → lookup (escrow_id (add64 k.escrow_seq 1)) k.escrows ≡ none
      → Evolves e (lookup id (step c k).escrows)
  unfolding step
  evolves (creates_deposit w u a m t₁ t₂) free =
      create_deposit_cases Holds k idle w u a m t₁ t₂ idle
  evolves (confirms_deposit j r t₁ t₂) free =
      confirm_deposit_cases Holds k idle j r t₁ t₂ (λ d l st. idle) (λ d l st. idle)
  evolves (creates_withdrawal w u a m d t) free =
      create_withdrawal_cases Holds k idle w u a m d t idle
  evolves (processes_withdrawal j t) free =
      process_withdrawal_cases Holds k idle j t (λ q l st. idle)
  evolves (creates_escrow x b s a m t₁ t₂) free =
      create_escrow_cases Holds k idle x b s a m t₁ t₂ (creates (new_escrow k x b s a m t₁ t₂) free)
  evolves (funds_escrow j r t₁ t₂) free =
      fund_escrow_cases Holds k idle j r t₁ t₂
        (λ o l st. writes j o _ l (rw st lapsing) (same_terms o _ refl refl refl refl refl refl))
        (λ o l st. writes j o _ l (rw st funding) (same_terms o _ refl refl refl refl refl refl))
  evolves (executes_settlement j f h t) free =
      execute_settlement_cases Holds k idle j f h t
        (λ o l st. writes j o _ l (rw st paying_out) (same_terms o _ refl refl refl refl refl refl))
  evolves (refunds_escrow j r) free =
      refund_escrow_cases Holds k idle j r
        (λ o l st. writes j o _ l (refunding st) (same_terms o _ refl refl refl refl refl refl))

-- In a state that a new keeper reaches by fewer than 2 ^ 63 - 1 calls, one more call leaves an escrow
-- where it is, with the same parties, amount and fee; its status stays, or goes from pending to
-- funded or failed, from funded to completed, or from anything but completed to refunded.
pub step-Evolves :
    (cs : List Call) (c : Call) (id : String) (e : EscrowAccount)
    → length cs + 1 < half
    → lookup id (run cs new_keeper).escrows ≡ some e
    → Evolves e (lookup id (step c (run cs new_keeper)).escrows)
step-Evolves cs c id e h found =
    let k = run cs new_keeper in
    evolves id k e found c (next_free 0 k (run-new_keeper-EscrowLedger cs 1 h))
