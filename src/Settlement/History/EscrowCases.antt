-- ===== src/Settlement/History/EscrowCases.antt =====
-- One rule for each operation on escrows: what holds of the states that its branches write holds of
-- the state after the call.
use ftg_chain.Base.{ℕ, ◌≡◌, ◌≢◌, refl, inl, inr, some, ◌∷◌, [], ◌++◌, String, arith, Option-cases}
use ftg_chain.Base.Word.{add64, sub64}
use ftg_chain.Base.Dict.{lookup, insert}
use ftg_chain.Base.Time.{Time}
use ftg_chain.Settlement.Types.{Keeper, PaymentMethod, EscrowAccount, SettlementStatus}
use ftg_chain.Settlement.Escrows.{
  escrow_id, new_escrow, create_escrow, fund_found, fund_escrow, new_settlement, execute_found,
  execute_settlement, refund_found, refund_escrow,
}

module _ {ℓ} (P : Keeper → Type ℓ) (k : Keeper) (same : P k) where
  pub create_escrow_cases :
      (x b s : String) (amount : ℕ) (m : PaymentMethod) (t₁ t₂ : Time)
      → P (record k {
        escrow_seq = add64 k.escrow_seq 1;
        escrows =
            insert (escrow_id (add64 k.escrow_seq 1)) (new_escrow k x b s amount m t₁ t₂) k.escrows;
        active_escrows = add64 k.active_escrows 1;
      })
      → P (create_escrow x b s amount m t₁ t₂ k).0
  unfolding create_escrow
  create_escrow_cases x b s amount m t₁ t₂ created = ground arith

  fund_found_cases :
      (id r : String) (t₁ t₂ : Time) (e : EscrowAccount) (s : SettlementStatus)
      → e.status ≡ s
      → (s ≡ SettlementStatus.pending
          → P (record k {
            escrows = insert id (record e { status = SettlementStatus.failed }) k.escrows;
            active_escrows = sub64 k.active_escrows 1;
          }))
      → (s ≡ SettlementStatus.pending
          → P (record k {
            escrows =
                insert id
                  (record e {
                    status = SettlementStatus.funded;
                    payment_ref = r;
                    funded_at = some t₂;
                  })
                  k.escrows;
          }))
      → P (fund_found id r t₁ t₂ k e).0
  unfolding fund_found
  fund_found_cases id r t₁ t₂ e SettlementStatus.pending st late paid =
      let l = late refl in let p = paid refl in ground arith
  fund_found_cases id r t₁ t₂ e _ st late paid = rw (st, fund_found) same

  pub fund_escrow_cases :
      (id r : String) (t₁ t₂ : Time)
      → ((e : EscrowAccount)
          → lookup id k.escrows ≡ some e
          → e.status ≡ SettlementStatus.pending
          → P (record k {
            escrows = insert id (record e { status = SettlementStatus.failed }) k.escrows;
            active_escrows = sub64 k.active_escrows 1;
          }))
      → ((e : EscrowAccount)
          → lookup id k.escrows ≡ some e
          → e.status ≡ SettlementStatus.pending
          → P (record k {
            escrows =
                insert id
                  (record e {
                    status = SettlementStatus.funded;
                    payment_ref = r;
                    funded_at = some t₂;
                  })
                  k.escrows;
          }))
      → P (fund_escrow id r t₁ t₂ k).0
  unfolding fund_escrow
  fund_escrow_cases id r t₁ t₂ late paid = elim (Option-cases (lookup id k.escrows)) [
    | inl e ↦ rw (e, fund_escrow) same
    | inr (a, e) ↦
        rw (e, fund_escrow) (fund_found_cases id r t₁ t₂ a a.status refl (late a e) (paid a e))
  ]

  execute_found_cases :
      (id : String) (ftg h : ℕ) (t : Time) (e : EscrowAccount) (s : SettlementStatus)
      → e.status ≡ s
      → (s ≡ SettlementStatus.funded
          → P (record k {
            escrows =
                insert id
                  (record e { status = SettlementStatus.completed; completed_at = some t })
                  k.escrows;
            active_escrows = sub64 k.active_escrows 1;
            settlement_seq = add64 k.settlement_seq 1;
            settlements = k.settlements ++ new_settlement id ftg h t k e ∷ [];
            total_settled_usdc = add64 k.total_settled_usdc e.amount_usdc;
            total_fees_collected = add64 k.total_fees_collected e.fee_usdc;
          }))
      → P (execute_found id ftg h t k e).0
  unfolding execute_found new_settlement
  execute_found_cases id ftg h t e SettlementStatus.funded st done =
      rw (st, execute_found) (done refl)
  execute_found_cases id ftg h t e _ st done = rw (st, execute_found) same

  pub execute_settlement_cases :
      (id : String) (ftg h : ℕ) (t : Time)
      → ((e : EscrowAccount)
          → lookup id k.escrows ≡ some e
          → e.status ≡ SettlementStatus.funded
          → P (record k {
            escrows =
                insert id
                  (record e { status = SettlementStatus.completed; completed_at = some t })
                  k.escrows;
            active_escrows = sub64 k.active_escrows 1;
            settlement_seq = add64 k.settlement_seq 1;
            settlements = k.settlements ++ new_settlement id ftg h t k e ∷ [];
            total_settled_usdc = add64 k.total_settled_usdc e.amount_usdc;
            total_fees_collected = add64 k.total_fees_collected e.fee_usdc;
          }))
      → P (execute_settlement id ftg h t k).0
  unfolding execute_settlement
  execute_settlement_cases id ftg h t done = elim (Option-cases (lookup id k.escrows)) [
    | inl e ↦ rw (e, execute_settlement) same
    | inr (a, e) ↦
        rw (e, execute_settlement) (execute_found_cases id ftg h t a a.status refl (done a e))
  ]

  refund_found_cases :
      (id : String) (e : EscrowAccount) (s : SettlementStatus)
      → e.status ≡ s
      → (e.status ≢ SettlementStatus.completed
          → P (record k {
            escrows = insert id (record e { status = SettlementStatus.refunded }) k.escrows;
          }))
      → P (refund_found id k e).0
  unfolding refund_found
  refund_found_cases id e SettlementStatus.completed st done = rw (st, refund_found) same
  refund_found_cases id e _ st done = let d = done (λ c. cc) in ground arith

  pub refund_escrow_cases :
      (id reason : String)
      → ((e : EscrowAccount)
          → lookup id k.escrows ≡ some e
          → e.status ≢ SettlementStatus.completed
          → P (record k {
            escrows = insert id (record e { status = SettlementStatus.refunded }) k.escrows;
          }))
      → P (refund_escrow id reason k).0
  unfolding refund_escrow
  refund_escrow_cases id reason done = elim (Option-cases (lookup id k.escrows)) [
    | inl e ↦ rw (e, refund_escrow) same
    | inr (a, e) ↦ rw (e, refund_escrow) (refund_found_cases id a a.status refl (done a e))
  ]
