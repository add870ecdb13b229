-- ===== src/Node/Server/Served.antt =====
-- What any sequence of requests to the handlers of cmd/ftgd/rpc_server.go does to the chain state.
use ftg_chain.Base.{
  ℕ, ◌≡◌, refl, ap, ◌∙◌, ◌≢◌, ◌⊎◌, inl, inr, ◌||◌, Bool, true, false, List, [], ◌∷◌, String, arith,
  str_eq, Bool-cases, eq_iff,
}
use ftg_chain.Base.Word.{sle, slt}
use ftg_chain.Base.Lists.{All}
use ftg_chain.Base.Time.{Time}
use ftg_chain.Base.Result.{Result, ok, err}
use ftg_chain.Node.Http.{Body, shown, post_body_answer, is_ok}
use ftg_chain.Node.ChainState.{
  ChainState, Certificate, BurnEvent, Transaction, Error, is_registered, mint_from_certificate,
  burn_tokens, transfer_from_minting_to_committed, transfer_from_minting_to_liquidity,
}
use ftg_chain.Node.ChainState.History.{Call, mints, burns, commits, provides, step, run}
use ftg_chain.Node.Server.{
  MintRequest, BurnRequest, TreasuryCommitRequest, TreasuryLiquidityRequest, certificate_of,
  event_of, mint_answer, burn_answer, commit_answer, liquidity_answer, mint_requested,
  burn_requested, commit_requested, liquidity_requested, handle_mint, handle_burn,
  handle_treasury_commit, handle_treasury_to_liquidity, post_dropping_outcome,
}

-- A call that the handlers make: a mint names its certificate and has MWh.
abbrev pub IsAdmitted : Call → Type 0
IsAdmitted (mints cert h t u) = (cert.external_id ≢ "") × (sle cert.mwh_amount 0 ≡ false)
IsAdmitted _ = Unit

-- What a handler answers shows the state and the outcome that the keeper returned.
mint_answer-shown :
    (req : MintRequest) (cert : Certificate) (h : ℕ) (x : ChainState × Result Error Transaction)
    → shown (mint_answer req cert h x) ≡ (x.0, is_ok x.1)
unfolding mint_answer
mint_answer-shown req cert h (cs, ok tx) = refl
mint_answer-shown req cert h (cs, err e) = refl

module _ {F : Type 0} (in_ftg : ℕ → F) where
  burn_answer-shown :
      (req : BurnRequest) (h : ℕ) (x : ChainState × Result Error Transaction)
      → shown (burn_answer in_ftg req h x) ≡ (x.0, is_ok x.1)
  unfolding burn_answer
  burn_answer-shown req h (cs, ok tx) = refl
  burn_answer-shown req h (cs, err e) = refl

  commit_answer-shown :
      (req : TreasuryCommitRequest) (x : ChainState × Result Error (Unit {0}))
      → shown (commit_answer in_ftg req x) ≡ (x.0, is_ok x.1)
  unfolding commit_answer
  commit_answer-shown req (cs, ok _) = refl
  commit_answer-shown req (cs, err e) = refl

  liquidity_answer-shown :
      (req : TreasuryLiquidityRequest) (x : ChainState × Result Error (Unit {0}))
      → shown (liquidity_answer in_ftg req x) ≡ (x.0, is_ok x.1)
  unfolding liquidity_answer
  liquidity_answer-shown req (cs, ok _) = refl
  liquidity_answer-shown req (cs, err e) = refl

module _ (cs : ChainState) where
  -- A request is one call of the chain state and succeeds, or it fails and changes nothing.
  pub Outcome : ChainState × Bool → Type 0
  Outcome after = (after ≡ (cs, false)) ⊎ ((c : Call) × IsAdmitted c × (after ≡ (step c cs, true)))

  refused : Outcome (cs, false)
  unfolding Outcome
  refused = inl refl

  called :
      (c : Call) → IsAdmitted c → (b : Bool) → (b ≡ false → step c cs ≡ cs) → Outcome (step c cs, b)
  unfolding Outcome
  called c a true _ = inr (c, a, refl)
  called c a false same = inl (ap (λ s. (s, false)) (same refl))

  -- A call of the chain state that fails changes nothing.
  mint_failed :
      (cert : Certificate) (h : ℕ) (t u : Time)
      → is_ok (mint_from_certificate cert h t u cs).1 ≡ false
      → (mint_from_certificate cert h t u cs).0 ≡ cs
  unfolding mint_from_certificate
  mint_failed cert h t u = elim (Bool-cases (is_registered cert.external_id cs.certificates)) [
    | inl old ↦ rw old (λ _. refl)
    | inr new ↦ rw new (λ e. absurd cc)
  ]

  burn_failed :
      (event : BurnEvent) (h : ℕ) (t u : Time)
      → is_ok (burn_tokens event h t u cs).1 ≡ false
      → (burn_tokens event h t u cs).0 ≡ cs
  unfolding burn_tokens
  burn_failed event h t u = elim (Bool-cases (slt cs.total_supply event.amount)) [
    | inl more ↦ rw more (λ _. refl)
    | inr within ↦ rw within (λ e. absurd cc)
  ]

  commit_failed :
      (amount : ℕ) (ref : String)
      → is_ok (transfer_from_minting_to_committed amount ref cs).1 ≡ false
      → (transfer_from_minting_to_committed amount ref cs).0 ≡ cs
  unfolding transfer_from_minting_to_committed
  commit_failed amount ref = elim (Bool-cases (slt cs.treasury_minting amount)) [
    | inl more ↦ rw more (λ _. refl)
    | inr within ↦ rw within (λ e. absurd cc)
  ]

  provide_failed :
      (amount : ℕ)
      → is_ok (transfer_from_minting_to_liquidity amount cs).1 ≡ false
      → (transfer_from_minting_to_liquidity amount cs).0 ≡ cs
  unfolding transfer_from_minting_to_liquidity
  provide_failed amount = elim (Bool-cases (slt cs.treasury_minting amount)) [
    | inl more ↦ rw more (λ _. refl)
    | inr within ↦ rw within (λ e. absurd cc)
  ]

  mint_requested-Outcome :
      (height : ℕ) (t u : Time) (req : MintRequest)
      → Outcome (shown (mint_requested height t u req cs))
  unfolding mint_requested step certificate_of
  mint_requested-Outcome height t u req =
      let cert = certificate_of req height in
      elim (Bool-cases (str_eq req.certificate_id "" || sle req.mwh_amount 0)) [
        | inl bad ↦ rw bad refused
        | inr good ↦
            let named : IsAdmitted (mints cert height t u) =
              (ground (arith, eq_iff req.certificate_id ""), ground arith) in
            rw (good, mint_answer-shown req cert height (mint_from_certificate cert height t u cs))
              (called (mints cert height t u) named _ (mint_failed cert height t u))
      ]

-- A request to a handler that changes the chain state, with the height and the readings of the
-- clock.
pub data Request : Type 0 where
  mint : String → Body MintRequest → ℕ → Time → Time → Request
  burn : String → Body BurnRequest → ℕ → Time → Time → Time → Request
  treasury_commit : String → Body TreasuryCommitRequest → Request
  treasury_to_liquidity : String → Body TreasuryLiquidityRequest → Request

module _ {F : Type 0} (in_ftg : ℕ → F) where
  -- The state that a request leaves, and whether its answer is a success.
  unfoldable pub serve : Request → ChainState → ChainState × Bool
  serve (mint m b h t u) cs = shown (handle_mint m b h t u cs)
  serve (burn m b h n t u) cs = shown (handle_burn in_ftg m b h n t u cs)
  serve (treasury_commit m b) cs = shown (handle_treasury_commit in_ftg m b cs)
  serve (treasury_to_liquidity m b) cs = shown (handle_treasury_to_liquidity in_ftg m b cs)

  unfoldable pub serve_all : List Request → ChainState → ChainState
  unfolding serve
  serve_all [] cs = cs
  serve_all (r ∷ rs) cs = serve_all rs (serve r cs).0

  -- A request to one of the four handlers either fails and leaves the chain state as it was, or
  -- succeeds and leaves the state that one call of the chain state leaves, where the call of a mint
  -- names its certificate and has more than zero MWh.
  pub serve-Outcome : (r : Request) (cs : ChainState) → Outcome cs (serve r cs)
  unfolding serve handle_mint handle_burn handle_treasury_commit handle_treasury_to_liquidity step
      burn_requested commit_requested liquidity_requested
  serve-Outcome (mint m b h t u) cs =
      post_body_answer (λ x. Outcome cs (shown x)) m b (mint_requested h t u) cs (refused cs)
        (λ _. refused cs) (mint_requested-Outcome cs h t u)
  serve-Outcome (burn m b h n t u) cs =
      post_body_answer (λ x. Outcome cs (shown x)) m b (burn_requested in_ftg h n t u) cs
        (refused cs) (λ _. refused cs)
        λ req.
          rw (burn_answer-shown in_ftg req h (burn_tokens (event_of req n) h t u cs))
            (called cs (burns (event_of req n) h t u) tt _ (burn_failed cs (event_of req n) h t u))
  serve-Outcome (treasury_commit m b) cs =
      post_dropping_outcome (Outcome cs) m b (commit_requested in_ftg) cs (refused cs) λ req.
        rw
          (commit_answer-shown in_ftg req
            (transfer_from_minting_to_committed req.amount req.buyer_ref cs))
          (called cs (commits req.amount req.buyer_ref) tt _
            (commit_failed cs req.amount req.buyer_ref))
  serve-Outcome (treasury_to_liquidity m b) cs =
      post_dropping_outcome (Outcome cs) m b (liquidity_requested in_ftg) cs (refused cs) λ req.
        rw (liquidity_answer-shown in_ftg req (transfer_from_minting_to_liquidity req.amount cs))
          (called cs (provides req.amount) tt _ (provide_failed cs req.amount))

  -- Any sequence of requests leaves the state that some sequence of calls of the chain state leaves,
  -- in which every mint names its certificate and has more than zero MWh.
  pub serve_all-run :
      (rs : List Request) (cs : ChainState)
      → (calls : List Call) × All IsAdmitted calls × (serve_all rs cs ≡ run calls cs)
  unfolding serve_all run Outcome
  serve_all-run [] cs = ([], tt, refl)
  serve_all-run (r ∷ rs) cs =
      let later = serve_all-run rs (serve r cs).0 in
      elim (serve-Outcome r cs) [
        | inl same ↦ (later.0, later.1, later.2 ∙ ap (λ x. run later.0 x.0) same)
        | inr (c, a, done) ↦ (c ∷ later.0, (a, later.1), later.2 ∙ ap (λ x. run later.0 x.0) done)
      ]
