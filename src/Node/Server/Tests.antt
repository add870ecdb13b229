-- ===== src/Node/Server/Tests.antt =====
-- Runs of the handlers of the chain state on concrete requests, and instances of what is proved of
-- every request. `whole_ftg` stands for the division of floating-point numbers.
use ftg_chain.Base.{ℕ, ◌/◌, ◌≡◌, refl, none, List, [], ◌∷◌}
use ftg_chain.Base.Word.{add64, mul64, sub64}
use ftg_chain.Base.Lists.{All}
use ftg_chain.Base.Result.{ok}
use ftg_chain.Node.Http.{Body, Response, success, post_body, read_body}
use ftg_chain.Node.ChainState.{
  ChainState, Error, new_chain_state, is_registered, tokens_uftg, mint_from_certificate,
  transfer_from_minting_to_committed,
}
use ftg_chain.Node.Server.{
  MintRequest, TreasuryCommitRequest, MintAnswer, certificate_of, mint_answer, mint_requested,
  handle_mint, handle_treasury_commit, post_dropping, commit_requested, commit_answer,
}
use ftg_chain.Node.Server.Queries.{get_stats}
use ftg_chain.Node.Server.Served.{
  Outcome, Request, mint, treasury_commit, serve, serve_all, serve-Outcome,
}
use ftg_chain.Node.Server.Minted.{IsProper, handle_mint-uftg_minted, serve_all-IsProper}

abbrev whole_ftg : ℕ → ℕ
whole_ftg uftg = uftg / 1000000

abbrev holding : {A : Type 0} → A → Body A
holding a = record { read_error = none; parsed = ok a }

abbrev solar : MintRequest
solar = record {
  certificate_id = "REC-1";
  provider = "Sunfield";
  mwh_amount = 3;
  ipfs_hash = "Qm1";
  provenance_type = "proof_of_generation";
  source_type = "solar";
  vintage_year = 2025;
  minter = "ftg1minter";
}

abbrev commit_all : TreasuryCommitRequest
commit_all = record { amount = 300000000; buyer_ref = "OTC-1" }

abbrev morning : List Request
morning =
    mint "POST" (holding solar) 7 100 101
    ∷ mint "GET" (holding solar) 7 102 103
    ∷ treasury_commit "POST" (holding commit_all)
    ∷ treasury_commit "POST" (holding commit_all)
    ∷ []

committed : (serve_all whole_ftg morning new_chain_state).treasury_committed ≡ 300000000
unfolding serve_all serve handle_mint post_body read_body mint_requested certificate_of
    mint_from_certificate is_registered tokens_uftg add64 mul64 sub64 mint_answer
    handle_treasury_commit post_dropping commit_requested commit_answer
    transfer_from_minting_to_committed
committed = refl

supply_shown :
    (get_stats whole_ftg (serve_all whole_ftg morning new_chain_state)).total_supply_ftg ≡ 300
unfolding get_stats serve_all serve handle_mint post_body read_body mint_requested certificate_of
    mint_from_certificate is_registered tokens_uftg add64 mul64 sub64 mint_answer
    handle_treasury_commit post_dropping commit_requested commit_answer
    transfer_from_minting_to_committed
supply_shown = refl

abbrev after_mint : ChainState × Response Error MintAnswer
after_mint = handle_mint "POST" (holding solar) 7 100 101 new_chain_state

abbrev solar_answer : MintAnswer
solar_answer = record {
  tx_hash = "MINT_REC-1_7";
  block_height = 7;
  certificate_id = "REC-1";
  mwh_amount = 3;
  uftg_minted = 0;
  provider = "Sunfield";
  ipfs_hash = "Qm1";
  timestamp = 101;
}

minted : after_mint ≡ (after_mint.0, success solar_answer)
unfolding handle_mint post_body read_body mint_requested certificate_of mint_from_certificate
    is_registered tokens_uftg add64 mul64 mint_answer
minted = refl

handle_mint-uftg_minted_example :
    (solar_answer.uftg_minted ≡ 0) × (after_mint.0.total_minted ≡ add64 0 (tokens_uftg 3))
handle_mint-uftg_minted_example =
    handle_mint-uftg_minted "POST" (holding solar) 7 100 101 new_chain_state after_mint.0
      solar_answer minted

serve-Outcome_example :
    Outcome new_chain_state
      (serve whole_ftg (mint "POST" (holding solar) 7 100 101) new_chain_state)
serve-Outcome_example =
    serve-Outcome whole_ftg (mint "POST" (holding solar) 7 100 101) new_chain_state

serve_all-IsProper_example : All IsProper (serve_all whole_ftg morning new_chain_state).certificates
serve_all-IsProper_example = serve_all-IsProper whole_ftg morning
