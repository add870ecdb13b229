-- ===== src/Settlement/History/Cases.antt =====
-- One rule for each operation on deposits and withdrawals: what holds of the states that its
-- branches write holds of the state after the call.
use ftg_chain.Base.{ℕ, ◌≡◌, refl, inl, inr, some, String, arith, Option-cases}
use ftg_chain.Base.Word.{add64}
use ftg_chain.Base.Dict.{lookup, insert}
use ftg_chain.Base.Time.{Time}
use ftg_chain.Settlement.Types.{
  Keeper, PaymentMethod, DepositIntent, DepositStatus, WithdrawalRequest, WithdrawalStatus,
}
use ftg_chain.Settlement.Deposits.{
  deposit_id, new_deposit_intent, create_deposit_intent, confirm_intent, confirm_deposit,
}
use ftg_chain.Settlement.Withdrawals.{
  withdrawal_id, withdrawal_fee, new_withdrawal_request, create_withdrawal_request, process_request,
  process_withdrawal,
}

module _ {ℓ} (P : Keeper → Type ℓ) (k : Keeper) (same : P k) where
  pub create_deposit_cases :
      (w u : String) (amount : ℕ) (m : PaymentMethod) (t₁ t₂ : Time)
      → P (record k {
        deposit_seq = add64 k.deposit_seq 1;
        deposits =
            insert
              (deposit_id (add64 k.deposit_seq 1))
              (new_deposit_intent k w u amount m t₁ t₂)
              k.deposits;
      })
      → P (create_deposit_intent w u amount m t₁ t₂ k).0
  unfolding create_deposit_intent
  create_deposit_cases w u amount m t₁ t₂ created = ground arith

  confirm_intent_cases :
      (id r : String) (t₁ t₂ : Time) (d : DepositIntent) (s : DepositStatus)
      → (s ≡ DepositStatus.pending
          → P (record k {
            deposits = insert id (record d { status = DepositStatus.expired }) k.deposits;
          }))
      → (s ≡ DepositStatus.pending
          → P (record k {
            deposits =
                insert id
                  (record d {
                    status = DepositStatus.confirmed;
                    payment_ref = r;
                    confirmed_at = some t₂;
                  })
                  k.deposits;
            total_deposited = add64 k.total_deposited d.amount;
          }))
      → P (confirm_intent id r t₁ t₂ k d s).0
  unfolding confirm_intent
  confirm_intent_cases id r t₁ t₂ d DepositStatus.pending late paid =
      let l = late refl in let p = paid refl in ground arith
  confirm_intent_cases id r t₁ t₂ d _ late paid = same

  pub confirm_deposit_cases :
      (id r : String) (t₁ t₂ : Time)
      → ((d : DepositIntent)
          → lookup id k.deposits ≡ some d
          → d.status ≡ DepositStatus.pending
          → P (record k {
            deposits = insert id (record d { status = DepositStatus.expired }) k.deposits;
          }))
      → ((d : DepositIntent)
          → lookup id k.deposits ≡ some d
          → d.status ≡ DepositStatus.pending
          → P (record k {
            deposits =
                insert id
                  (record d {
                    status = DepositStatus.confirmed;
                    payment_ref = r;
                    confirmed_at = some t₂;
                  })
                  k.deposits;
            total_deposited = add64 k.total_deposited d.amount;
          }))
      → P (confirm_deposit id r t₁ t₂ k).0
  unfolding confirm_deposit
  confirm_deposit_cases id r t₁ t₂ late paid = elim (Option-cases (lookup id k.deposits)) [
    | inl e ↦ rw (e, confirm_deposit) same
    | inr (d, e) ↦
        rw (e, confirm_deposit) (confirm_intent_cases id r t₁ t₂ d d.status (late d e) (paid d e))
  ]

  pub create_withdrawal_cases :
      (w u : String) (amount : ℕ) (m : PaymentMethod) (d : String) (t : Time)
      → P (record k {
        withdrawal_seq = add64 k.withdrawal_seq 1;
        withdrawals =
            insert
              (withdrawal_id (add64 k.withdrawal_seq 1))
              (new_withdrawal_request k w u amount m d t)
              k.withdrawals;
      })
      → P (create_withdrawal_request w u amount m d t k).0
  unfolding create_withdrawal_request
  create_withdrawal_cases w u amount m d t created = ground arith

  process_request_cases :
      (id : String) (t : Time) (q : WithdrawalRequest) (s : WithdrawalStatus)
      → (s ≡ WithdrawalStatus.pending
          → P (record k {
            withdrawals =
                insert id
                  (record q { status = WithdrawalStatus.completed; processed_at = some t })
                  k.withdrawals;
            total_withdrawn = add64 k.total_withdrawn q.amount;
            total_fees_collected = add64 k.total_fees_collected (withdrawal_fee k.config q.amount);
          }))
      → P (process_request id t k q s).0
  unfolding process_request
  process_request_cases id t q WithdrawalStatus.pending done = done refl
  process_request_cases id t q WithdrawalStatus.completed done = same

  pub process_withdrawal_cases :
      (id : String) (t : Time)
      → ((q : WithdrawalRequest)
          → lookup id k.withdrawals ≡ some q
          → q.status ≡ WithdrawalStatus.pending
          → P (record k {
            withdrawals =
                insert id
                  (record q { status = WithdrawalStatus.completed; processed_at = some t })
                  k.withdrawals;
            total_withdrawn = add64 k.total_withdrawn q.amount;
            total_fees_collected = add64 k.total_fees_collected (withdrawal_fee k.config q.amount);
          }))
      → P (process_withdrawal id t k).0
  unfolding process_withdrawal
  process_withdrawal_cases id t done = elim (Option-cases (lookup id k.withdrawals)) [
    | inl e ↦ rw (e, process_withdrawal) same
    | inr (q, e) ↦ rw (e, process_withdrawal) (process_request_cases id t q q.status (done q e))
  ]
