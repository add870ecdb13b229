-- ===== src/Node/ChainState/Tests.antt =====
-- Runs of the chain state on concrete calls, and instances of what is proved of every call.
use ftg_chain.Base.{ℕ, ◌+◌, ◌-◌, ◌*◌, ◌<◌, ◌≡◌, refl, List, [], ◌∷◌, arith}
use ftg_chain.Base.Word.{word, half, add64, sub64, mul64, neg64}
use ftg_chain.Base.Result.{ok, err}
use ftg_chain.Node.ChainState.{
  Certificate, BurnEvent, already_registered, new_chain_state, is_registered, tokens_uftg,
  mint_from_certificate, burn_tokens, burn_transaction, transfer_from_minting_to_committed,
  transfer_from_minting_to_liquidity,
}
use ftg_chain.Node.ChainState.History.{Call, mints, burns, commits, provides, step, run}
use ftg_chain.Node.ChainState.Supply.{Accounted, run-Accounted}
use ftg_chain.Node.ChainState.Registered.{minted_once}
use ftg_chain.Node.ChainState.Amounts.{mwh_tried, amounts_in_range, burn_tokens-negative}

abbrev solar : Certificate
solar = record {
  id = "cert_7_REC-1";
  external_id = "REC-1";
  provider = "Sunfield";
  mwh_amount = 3;
  tokens_minted = 0;
  ipfs_hash = "Qm1";
  provenance_type = "proof_of_generation";
  source_type = "solar";
  vintage_year = 2025;
  minted_at = 0;
  minted_in_block = 0;
  minter = "ftg1minter";
}

abbrev retired : ℕ → BurnEvent
retired amount = record {
  id = "burn_1";
  amount = amount;
  burn_type = "manual";
  burner = "ftg1holder";
  reason = "retired";
  burned_at = 0;
  block_height = 0;
}

-- Two mints of the same certificate, a burn, a transfer out of each branch.
abbrev day : List Call
day =
    mints solar 7 100 101
    ∷ mints solar 8 110 111
    ∷ burns (retired 50000000) 9 120 121
    ∷ commits 200000000 "OTC-1"
    ∷ provides 200000000
    ∷ []

day_supply : (run day new_chain_state).total_supply ≡ 250000000
unfolding run step mint_from_certificate burn_tokens is_registered tokens_uftg mul64 add64 sub64
    transfer_from_minting_to_committed transfer_from_minting_to_liquidity
day_supply = refl

run-Accounted_example : Accounted (run day new_chain_state)
run-Accounted_example = run-Accounted day

minted_once_example :
    let later = run day (mint_from_certificate solar 7 100 101 new_chain_state).0 in
    mint_from_certificate solar 30 400 401 later ≡ (later, err (already_registered "REC-1"))
minted_once_example = minted_once solar solar 7 30 100 101 400 401 new_chain_state day refl

tried : 100000000 * mwh_tried day < half
unfolding mwh_tried
tried = omega arith

amounts_in_range_example :
    let cs = run day new_chain_state in
    (cs.total_supply + cs.total_burned ≡ cs.total_minted)
    × (cs.treasury_minting + cs.treasury_committed + cs.treasury_liquidity ≡ cs.total_minted)
    × (cs.total_minted < half)
amounts_in_range_example =
    amounts_in_range day
      (omega arith, (omega arith, (omega arith, (omega arith, (omega arith, tt))))) tried

burn_tokens-negative_example :
    let after = burn_tokens (retired (word - 5)) 9 120 121 new_chain_state in
    (after.1 ≡ ok (burn_transaction (retired (word - 5)) 9 121))
    × (after.0.total_supply ≡ 0 + neg64 (word - 5))
    × (after.0.certificates ≡ [])
burn_tokens-negative_example =
    burn_tokens-negative (retired (word - 5)) 9 120 121 new_chain_state (omega arith) (omega arith)
      (unfold neg64 in omega arith)
