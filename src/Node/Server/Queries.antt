-- ===== src/Node/Server/Queries.antt =====
-- The reads of the chain state: GetStats of cmd/ftgd/chain_state.go, and the handlers of
-- cmd/ftgd/rpc_server.go that answer a query. `in_ftg` is `float64(x) / 1_000_000`. The fixed texts
-- of the answers are left out.
use ftg_chain.Base.{ℕ, List, String, str_eq, if◌then◌else◌}
use ftg_chain.Base.Word.{add64}
use ftg_chain.Base.Lists.{length}
use ftg_chain.Node.ChainState.{ChainState, Certificate, Transaction}

pub record ChainStats (F : Type 0) : Type 0 where
  pub total_minted_uftg : ℕ
  pub total_minted_ftg : F
  pub total_burned_uftg : ℕ
  pub total_burned_ftg : F
  pub total_supply_uftg : ℕ
  pub total_supply_ftg : F
  pub total_mwh_backed : ℕ
  pub backing_ratio : String
  pub price_anchor : String
  pub certificates_count : ℕ
  pub burn_events_count : ℕ
  pub transactions_count : ℕ
  pub treasury_minting_ftg : F
  pub treasury_committed_ftg : F
  pub treasury_liquidity_ftg : F

pub record TreasuryAnswer (F : Type 0) : Type 0 where
  pub minting_uftg : ℕ
  pub minting_ftg : F
  pub committed_uftg : ℕ
  pub committed_ftg : F
  pub liquidity_uftg : ℕ
  pub liquidity_ftg : F
  pub total_treasury_ftg : F

-- What handleABCIQuery answers as `value`.
pub data QueryValue (F : Type 0) : Type 0 where
  total_minted : F → ℕ → QueryValue F
  burn_stats : F → ℕ → QueryValue F
  empty_value : QueryValue F

unfoldable pub handle_certificates : ChainState → List Certificate × ℕ
handle_certificates cs = (cs.certificates, length cs.certificates)

unfoldable pub handle_transactions : ChainState → List Transaction × ℕ
handle_transactions cs = (cs.transactions, length cs.transactions)

module _ {F : Type 0} (in_ftg : ℕ → F) where
  -- GetStats, which handleStats answers.
  unfoldable pub get_stats : ChainState → ChainStats F
  get_stats cs = record {
    total_minted_uftg = cs.total_minted;
    total_minted_ftg = in_ftg cs.total_minted;
    total_burned_uftg = cs.total_burned;
    total_burned_ftg = in_ftg cs.total_burned;
    total_supply_uftg = cs.total_supply;
    total_supply_ftg = in_ftg cs.total_supply;
    total_mwh_backed = cs.total_mwh;
    backing_ratio = "100%";
    price_anchor = "$5.00/FTG";
    certificates_count = length cs.certificates;
    burn_events_count = length cs.burn_events;
    transactions_count = length cs.transactions;
    treasury_minting_ftg = in_ftg cs.treasury_minting;
    treasury_committed_ftg = in_ftg cs.treasury_committed;
    treasury_liquidity_ftg = in_ftg cs.treasury_liquidity;
  }

  unfoldable pub handle_treasury : ChainState → TreasuryAnswer F
  handle_treasury cs = record {
    minting_uftg = cs.treasury_minting;
    minting_ftg = in_ftg cs.treasury_minting;
    committed_uftg = cs.treasury_committed;
    committed_ftg = in_ftg cs.treasury_committed;
    liquidity_uftg = cs.treasury_liquidity;
    liquidity_ftg = in_ftg cs.treasury_liquidity;
    total_treasury_ftg =
        in_ftg (add64 (add64 cs.treasury_minting cs.treasury_committed) cs.treasury_liquidity);
  }

  -- handleABCIQuery, from the `path` of the query.
  unfoldable pub handle_abci_query : String → ChainState → QueryValue F
  handle_abci_query path cs =
      if str_eq path "/ftgchain.energymint.v1.Query/TotalMinted"
      then total_minted (in_ftg cs.total_minted) cs.total_mwh
      else if str_eq path "/ftgchain.burn.v1.Query/BurnStats"
      then burn_stats (in_ftg cs.total_burned) (length cs.burn_events)
      else empty_value
