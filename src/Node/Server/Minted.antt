-- ===== src/Node/Server/Minted.antt =====
-- What a mint through cmd/ftgd/rpc_server.go answers, and the certificates that it registers.
use ftg_chain.Base.{ℕ, ◌≡◌, ◌≢◌, ◌||◌, false, inl, inr, List, [], ◌∷◌, String, str_eq, Bool-cases}
use ftg_chain.Base.Word.{add64, sle, slt}
use ftg_chain.Base.Lists.{All, All-append}
use ftg_chain.Base.Time.{Time}
use ftg_chain.Base.Result.{state_either}
use ftg_chain.Node.Http.{Body, Response, success, post_body_answer}
use ftg_chain.Node.ChainState.{
  ChainState, Certificate, Error, new_chain_state, is_registered, tokens_uftg, minted_certificate,
  mint_from_certificate, burn_tokens, transfer_from_minting_to_committed,
  transfer_from_minting_to_liquidity,
}
use ftg_chain.Node.ChainState.History.{Call, mints, burns, commits, provides, step, run}
use ftg_chain.Node.Server.{
  MintRequest, MintAnswer, certificate_of, mint_answer, mint_requested, handle_mint,
}
use ftg_chain.Node.Server.Served.{IsAdmitted, Request, serve_all, serve_all-run}

-- What is shown below of an answer, whatever the answer is.
Told : ChainState → ChainState × Response Error MintAnswer → Type 0
Told cs x =
    (cs' : ChainState) (a : MintAnswer)
    → x ≡ (cs', success a)
    → (a.uftg_minted ≡ 0) × (cs'.total_minted ≡ add64 cs.total_minted (tokens_uftg a.mwh_amount))

mint_requested-Told :
    (h : ℕ) (t u : Time) (req : MintRequest) (cs : ChainState)
    → Told cs (mint_requested h t u req cs)
unfolding Told mint_requested certificate_of mint_from_certificate mint_answer
mint_requested-Told h t u req cs =
    elim (Bool-cases (str_eq req.certificate_id "" || sle req.mwh_amount 0)) [
      | inl bad ↦ rw bad (λ cs' a e. absurd cc)
      | inr good ↦ elim (Bool-cases (is_registered req.certificate_id cs.certificates)) [
        | inl old ↦ rw (good, old) (λ cs' a e. absurd cc)
        | inr new ↦ rw (good, new) (λ cs' a e. (cc, cc))
      ]
    ]

-- The answer of a mint that succeeds shows zero uftg minted, whatever the certificate: the total
-- minted has grown by 100 million uftg for each of its MWh, as int64 words.
pub handle_mint-uftg_minted :
    (m : String) (b : Body MintRequest) (h : ℕ) (t u : Time) (cs cs' : ChainState) (a : MintAnswer)
    → handle_mint m b h t u cs ≡ (cs', success a)
    → (a.uftg_minted ≡ 0) × (cs'.total_minted ≡ add64 cs.total_minted (tokens_uftg a.mwh_amount))
unfolding handle_mint Told
handle_mint-uftg_minted m b h t u cs cs' a e =
    post_body_answer (Told cs) m b (mint_requested h t u) cs (λ cs' a e. absurd cc)
      (λ msg cs' a e. absurd cc) (λ req. mint_requested-Told h t u req cs) cs' a e

-- A certificate with a name and more than zero MWh.
abbrev pub IsProper : Certificate → Type 0
IsProper c = (c.external_id ≢ "") × (sle c.mwh_amount 0 ≡ false)

step-IsProper :
    (c : Call) (cs : ChainState)
    → IsAdmitted c
    → All IsProper cs.certificates
    → All IsProper (step c cs).certificates
unfolding step mint_from_certificate burn_tokens transfer_from_minting_to_committed
    transfer_from_minting_to_liquidity minted_certificate
step-IsProper (mints cert h t u) cs a p =
    state_either (λ (k : ChainState). All IsProper k.certificates)
      (is_registered cert.external_id cs.certificates) _ _ p
      (All-append IsProper cs.certificates (minted_certificate cert h t ∷ []) p (a, tt))
step-IsProper (burns event h t u) cs a p =
    state_either (λ (k : ChainState). All IsProper k.certificates)
      (slt cs.total_supply event.amount) _ _ p p
step-IsProper (commits amount ref) cs a p =
    state_either (λ (k : ChainState). All IsProper k.certificates) (slt cs.treasury_minting amount)
      _ _ p p
step-IsProper (provides amount) cs a p =
    state_either (λ (k : ChainState). All IsProper k.certificates) (slt cs.treasury_minting amount)
      _ _ p p

run-IsProper :
    (calls : List Call) (cs : ChainState)
    → All IsAdmitted calls
    → All IsProper cs.certificates
    → All IsProper (run calls cs).certificates
unfolding run
run-IsProper [] cs a p = p
run-IsProper (c ∷ calls) cs a p = run-IsProper calls (step c cs) a.1 (step-IsProper c cs a.0 p)

-- However the handlers are called, each certificate that the node has registered has a name and more
-- than zero MWh.
pub serve_all-IsProper :
    {F : Type 0} (in_ftg : ℕ → F) (rs : List Request)
    → All IsProper (serve_all in_ftg rs new_chain_state).certificates
serve_all-IsProper in_ftg rs =
    let calls = serve_all-run in_ftg rs new_chain_state in
    rw calls.2 (run-IsProper calls.0 new_chain_state calls.1 tt)
