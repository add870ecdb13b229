-- ===== src/Node/ChainState/History.antt =====
-- Histories of the chain state: any sequence of calls of cmd/ftgd/chain_state.go, refused ones
-- included.
use ftg_chain.Base.{ℕ, List, [], ◌∷◌, String}
use ftg_chain.Base.Time.{Time}
use ftg_chain.Node.ChainState.{
  ChainState, Certificate, BurnEvent, mint_from_certificate, burn_tokens,
  transfer_from_minting_to_committed, transfer_from_minting_to_liquidity,
}

pub data Call : Type 0 where
  mints : Certificate → ℕ → Time → Time → Call
  burns : BurnEvent → ℕ → Time → Time → Call
  commits : ℕ → String → Call
  provides : ℕ → Call

unfoldable pub step : Call → ChainState → ChainState
step (mints cert h t u) cs = (mint_from_certificate cert h t u cs).0
step (burns event h t u) cs = (burn_tokens event h t u cs).0
step (commits amount ref) cs = (transfer_from_minting_to_committed amount ref cs).0
step (provides amount) cs = (transfer_from_minting_to_liquidity amount cs).0

unfoldable pub run : List Call → ChainState → ChainState
run [] cs = cs
run (c ∷ rest) cs = run rest (step c cs)

-- What every call keeps, every history keeps.
pub run_keeps {ℓ} :
    (P : ChainState → Type ℓ)
    → ((c : Call) (cs : ChainState) → P cs → P (step c cs))
    → (calls : List Call) (cs : ChainState) → P cs
    → P (run calls cs)
unfolding run
run_keeps P keep [] cs p = p
run_keeps P keep (c ∷ rest) cs p = run_keeps P keep rest (step c cs) (keep c cs p)
