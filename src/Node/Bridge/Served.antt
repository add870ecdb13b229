-- ===== src/Node/Bridge/Served.antt =====
-- What any sequence of requests to the handlers of cmd/ftgd/rpc_settlement.go does to the settlement
-- keeper.
use ftg_chain.Base.{ℕ, ◌<◌, ◌≤◌, ◌≡◌, refl, ap, ◌∙◌, ◌⊎◌, inl, inr, List, [], ◌∷◌, String, arith}
use ftg_chain.Base.Word.{half}
use ftg_chain.Base.Dict.{lookup}
use ftg_chain.Base.Lists.{length}
use ftg_chain.Base.Time.{Time}
use ftg_chain.Base.Result.{Result, ok, err}
use ftg_chain.Node.Http.{Body, Response, post, post_answer, respond}
use ftg_chain.Settlement.Types.{Keeper, Error, new_keeper}
use ftg_chain.Settlement.History.{
  Call, creates_deposit, confirms_deposit, creates_withdrawal, processes_withdrawal, creates_escrow,
  funds_escrow, executes_settlement, refunds_escrow, step, run,
}
use ftg_chain.Settlement.History.EscrowLedger.{records_of, completions, settled_once}
use ftg_chain.Node.Bridge.{
  payment_method, CreateDepositRequest, ConfirmDepositRequest, CreateWithdrawalRequest,
  ProcessWithdrawalRequest, CreateEscrowRequest, FundEscrowRequest, ExecuteSettlementRequest,
  RefundEscrowRequest, refund_answer, handle_create_deposit, handle_confirm_deposit,
  handle_create_withdrawal, handle_process_withdrawal, handle_create_escrow, handle_fund_escrow,
  handle_execute_settlement, handle_refund_escrow,
}

-- A request to a handler that changes the keeper, with the readings of the clock and the height.
pub data Request : Type 0 where
  create_deposit : String → Body CreateDepositRequest → Time → Time → Request
  confirm : String → Body ConfirmDepositRequest → Time → Time → Request
  create_withdrawal : String → Body CreateWithdrawalRequest → Time → Request
  process : String → Body ProcessWithdrawalRequest → Time → Request
  open_escrow : String → Body CreateEscrowRequest → Time → Time → Request
  fund : String → Body FundEscrowRequest → Time → Time → Request
  execute : String → Body ExecuteSettlementRequest → ℕ → Time → Request
  refund : String → Body RefundEscrowRequest → Request

unfoldable pub serve : Request → Keeper → Keeper
serve (create_deposit m b t₁ t₂) k = (handle_create_deposit m b t₁ t₂ k).0
serve (confirm m b t₁ t₂) k = (handle_confirm_deposit m b t₁ t₂ k).0
serve (create_withdrawal m b t) k = (handle_create_withdrawal m b t k).0
serve (process m b t) k = (handle_process_withdrawal m b t k).0
serve (open_escrow m b t₁ t₂) k = (handle_create_escrow m b t₁ t₂ k).0
serve (fund m b t₁ t₂) k = (handle_fund_escrow m b t₁ t₂ k).0
serve (execute m b h t) k = (handle_execute_settlement m b h t k).0
serve (refund m b) k = (handle_refund_escrow m b k).0

unfoldable pub serve_all : List Request → Keeper → Keeper
unfolding serve
serve_all [] k = k
serve_all (r ∷ rs) k = serve_all rs (serve r k)

respond-state : {A : Type 0} (x : Keeper × Result Error A) → (respond x).0 ≡ x.0
respond-state (k, ok a) = refl
respond-state (k, err e) = refl

refund_answer-state :
    (req : RefundEscrowRequest) (x : Keeper × Result Error (Unit {0}))
    → (refund_answer req x).0 ≡ x.0
unfolding refund_answer
refund_answer-state req (k, ok _) = refl
refund_answer-state req (k, err e) = refl

module _ (k : Keeper) where
  -- The state is as it was, or the one that a call of the keeper leaves.
  pub Outcome : Keeper → Type 0
  Outcome after = (after ≡ k) ⊎ ((c : Call) × (after ≡ step c k))

  posted :
      {A R : Type 0} (m : String) (b : Body R) (handler : R → Keeper → Keeper × Response Error A)
      → ((req : R) → (c : Call) × ((handler req k).0 ≡ step c k))
      → Outcome (post m b handler k).0
  unfolding Outcome
  posted m b handler served =
      post_answer (λ x. Outcome x.0) m b handler k (inl refl) (λ _. inl refl)
        λ req. inr (served req)

  -- A request to one of the eight handlers leaves the keeper as it was, or as one call of it does.
  pub serve-Outcome : (r : Request) → Outcome (serve r k)
  unfolding serve step handle_create_deposit handle_confirm_deposit handle_create_withdrawal
      handle_process_withdrawal handle_create_escrow handle_fund_escrow handle_execute_settlement
      handle_refund_escrow
  serve-Outcome (create_deposit m b t₁ t₂) = posted m b _ λ req. (
    creates_deposit req.wallet_id req.user_id req.amount (payment_method req.payment_method) t₁ t₂,
    respond-state _,
  )
  serve-Outcome (confirm m b t₁ t₂) =
      posted m b _ λ req. (confirms_deposit req.deposit_id req.payment_ref t₁ t₂, respond-state _)
  serve-Outcome (create_withdrawal m b t) = posted m b _ λ req. (
    creates_withdrawal req.wallet_id req.user_id req.amount (payment_method req.payment_method)
        req.destination_ref t,
    respond-state _,
  )
  serve-Outcome (process m b t) =
      posted m b _ λ req. (processes_withdrawal req.withdrawal_id t, respond-state _)
  serve-Outcome (open_escrow m b t₁ t₂) = posted m b _ λ req. (
    creates_escrow req.trade_id req.buyer_wallet_id req.seller_wallet_id req.amount_usdc
        (payment_method req.payment_method) t₁ t₂,
    respond-state _,
  )
  serve-Outcome (fund m b t₁ t₂) =
      posted m b _ λ req. (funds_escrow req.escrow_id req.payment_ref t₁ t₂, respond-state _)
  serve-Outcome (execute m b h t) =
      posted m b _ λ req. (executes_settlement req.escrow_id req.ftg_amount h t, respond-state _)
  serve-Outcome (refund m b) =
      posted m b _ λ req. (refunds_escrow req.escrow_id req.reason, refund_answer-state req _)

-- Any sequence of requests leaves the keeper as some history of its calls does, which has no more
-- calls than there are requests.
pub serve_all-run :
    (rs : List Request) (k : Keeper)
    → (cs : List Call) × (length cs ≤ length rs) × (serve_all rs k ≡ run cs k)
unfolding serve_all run Outcome
serve_all-run [] k = ([], omega arith, refl)
serve_all-run (r ∷ rs) k =
    let later = serve_all-run rs (serve r k) in
    let shorter = later.1 in
    elim (serve-Outcome k r) [
      | inl same ↦ (later.0, omega arith, later.2 ∙ ap (run later.0) same)
      | inr (c, done) ↦ (c ∷ later.0, omega arith, later.2 ∙ ap (run later.0) done)
    ]

-- However the handlers are called, in fewer than 2 ^ 63 requests to a new keeper, an escrow has one
-- settlement record if it is completed and none otherwise: no sequence of requests pays an escrow
-- out twice.
pub served-settled_once :
    (rs : List Request) (id : String)
    → length rs < half
    → let k = serve_all rs new_keeper in
      records_of id k.settlements ≡ completions (lookup id k.escrows)
served-settled_once rs id h =
    let calls = serve_all-run rs new_keeper in
    let fewer = calls.1 in rw calls.2 (settled_once calls.0 id (omega arith))
