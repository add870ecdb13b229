-- ===== src/Node/ChainState/Supply.antt =====
-- What the counters and the balances of cmd/ftgd/chain_state.go say of each other, after any history
-- of calls.
use ftg_chain.Base.{ℕ, ◌≡◌, refl, sym, ap, ◌∙◌, List, arith, String}
use ftg_chain.Base.Word.{add64, sub64, mul64, slt}
use ftg_chain.Base.Sums.{total_by, total_by-append}
use ftg_chain.Base.Time.{Time}
use ftg_chain.Base.Result.{state_either}
use ftg_chain.Node.ChainState.{
  ChainState, Certificate, BurnEvent, new_chain_state, is_registered, tokens_uftg,
  minted_certificate, burned_event, mint_from_certificate, burn_tokens,
  transfer_from_minting_to_committed, transfer_from_minting_to_liquidity,
}
use ftg_chain.Node.ChainState.History.{Call, mints, burns, commits, provides, step, run, run_keeps}

-- The counters are the sums over the certificates and over the burns, the supply is what was minted
-- less what was burned, and the wallets hold what was minted.
pub record Accounted (cs : ChainState) : Type 0 where
  pub minted : cs.total_minted ≡ total_by Certificate.tokens_minted cs.certificates
  pub backing : cs.total_mwh ≡ total_by Certificate.mwh_amount cs.certificates
  pub burned : cs.total_burned ≡ total_by BurnEvent.amount cs.burn_events
  pub supply : add64 cs.total_supply cs.total_burned ≡ cs.total_minted
  pub treasury :
      add64 cs.treasury_minting (add64 cs.treasury_committed cs.treasury_liquidity)
      ≡ cs.total_minted
  pub rate : cs.total_minted ≡ tokens_uftg cs.total_mwh

rate-add64 :
    (minted mwh more : ℕ)
    → minted ≡ tokens_uftg mwh
    → add64 minted (tokens_uftg more) ≡ tokens_uftg (add64 mwh more)
unfolding tokens_uftg mul64 add64
rate-add64 minted mwh more h = omega arith

module _ (cs : ChainState) (v : Accounted cs) where
  mint-Accounted :
      (cert : Certificate) (h : ℕ) (t u : Time) → Accounted (mint_from_certificate cert h t u cs).0
  unfolding mint_from_certificate add64 minted_certificate
  mint-Accounted cert h t u =
      state_either Accounted (is_registered cert.external_id cs.certificates) _ _ v (record {
        minted =
            ap (λ n. add64 n (tokens_uftg cert.mwh_amount)) v.minted
            ∙ sym (
                total_by-append Certificate.tokens_minted cs.certificates
                  (minted_certificate cert h t));
        backing =
            ap (λ n. add64 n cert.mwh_amount) v.backing
            ∙ sym (
                total_by-append Certificate.mwh_amount cs.certificates
                  (minted_certificate cert h t));
        burned = v.burned;
        supply = let s = v.supply in omega arith;
        treasury = let s = v.treasury in omega arith;
        rate = rate-add64 cs.total_minted cs.total_mwh cert.mwh_amount v.rate;
      })

  burn-Accounted :
      (event : BurnEvent) (h : ℕ) (t u : Time) → Accounted (burn_tokens event h t u cs).0
  unfolding burn_tokens add64 sub64 burned_event
  burn-Accounted event h t u =
      state_either Accounted (slt cs.total_supply event.amount) _ _ v (record {
        minted = v.minted;
        backing = v.backing;
        burned =
            ap (λ n. add64 n event.amount) v.burned
            ∙ sym (total_by-append BurnEvent.amount cs.burn_events (burned_event event h t));
        supply = let s = v.supply in omega arith;
        treasury = v.treasury;
        rate = v.rate;
      })

  commit-Accounted :
      (amount : ℕ) (ref : String) → Accounted (transfer_from_minting_to_committed amount ref cs).0
  unfolding transfer_from_minting_to_committed add64 sub64
  commit-Accounted amount ref =
      state_either Accounted (slt cs.treasury_minting amount) _ _ v (record {
        minted = v.minted;
        backing = v.backing;
        burned = v.burned;
        supply = v.supply;
        treasury = let s = v.treasury in omega arith;
        rate = v.rate;
      })

  provide-Accounted : (amount : ℕ) → Accounted (transfer_from_minting_to_liquidity amount cs).0
  unfolding transfer_from_minting_to_liquidity add64 sub64
  provide-Accounted amount = state_either Accounted (slt cs.treasury_minting amount) _ _ v (record {
    minted = v.minted;
    backing = v.backing;
    burned = v.burned;
    supply = v.supply;
    treasury = let s = v.treasury in omega arith;
    rate = v.rate;
  })

step-Accounted : (c : Call) (cs : ChainState) → Accounted cs → Accounted (step c cs)
unfolding step
step-Accounted (mints cert h t u) cs v = mint-Accounted cs v cert h t u
step-Accounted (burns event h t u) cs v = burn-Accounted cs v event h t u
step-Accounted (commits amount ref) cs v = commit-Accounted cs v amount ref
step-Accounted (provides amount) cs v = provide-Accounted cs v amount

new-Accounted : Accounted new_chain_state
unfolding total_by add64 tokens_uftg mul64
new-Accounted = record {
  minted = refl;
  backing = refl;
  burned = refl;
  supply = refl;
  treasury = refl;
  rate = refl;
}

-- After any history of calls, as int64 words: the minted total, the MWh and the burned total are the
-- sums over the registered certificates and over the burns; 100 million uftg were minted for each
-- MWh; the supply and the burned total make up the minted total; and so do the three treasury
-- wallets, which a burn leaves alone.
pub run-Accounted : (calls : List Call) → Accounted (run calls new_chain_state)
run-Accounted calls = run_keeps Accounted step-Accounted calls new_chain_state new-Accounted
