-- ===== src/Node/Server.antt =====
-- The handlers of cmd/ftgd/rpc_server.go over the chain state. The height is the node's, read before
-- the call. `float64(x) / 1_000_000` stands in the answers as the parameter `in_ftg`, since floating
-- point is not modelled; of a mint's answer `ftg_minted` and the message, which show
-- `float64(MWhAmount) * 100`, are left out.
pub mod Queries
pub mod Served
pub mod Minted
mod Tests
use Prim.Native.String.{◌++◌ as ◌<>◌}
use mathlib.Core.Option
use ftg_chain.Base.{
  ℕ, ◌||◌, Option, none, some, List, String, str_eq, Bool, false, inl, inr, Bool-cases,
  if◌then◌else◌,
}
use ftg_chain.Base.Word.{add64, sle}
use ftg_chain.Base.Lists.{length}
use ftg_chain.Base.Sprintf.{sprintf}
use ftg_chain.Base.Time.{Time}
use ftg_chain.Base.Result.{Result, ok, err, Result-cases}
use ftg_chain.Node.Http.{
  Body, Response, method_not_allowed, bad_request, failed, success, post_body, respond, shown,
}
use ftg_chain.Node.ChainState.{
  ChainState, Certificate, BurnEvent, Transaction, Error, mint_from_certificate, burn_tokens,
  transfer_from_minting_to_committed, transfer_from_minting_to_liquidity,
}

pub record MintRequest : Type 0 where
  pub certificate_id : String
  pub provider : String
  pub mwh_amount : ℕ
  pub ipfs_hash : String
  pub provenance_type : String
  pub source_type : String
  pub vintage_year : ℕ
  pub minter : String

pub record MintAnswer : Type 0 where
  pub tx_hash : String
  pub block_height : ℕ
  pub certificate_id : String
  pub mwh_amount : ℕ
  pub uftg_minted : ℕ
  pub provider : String
  pub ipfs_hash : String
  pub timestamp : Time

unfoldable pub certificate_of : MintRequest → ℕ → Certificate
unfolding sprintf
certificate_of req height = record {
  id = sprintf "cert_" 1 height <> ("_" <> req.certificate_id);
  external_id = req.certificate_id;
  provider = req.provider;
  mwh_amount = req.mwh_amount;
  tokens_minted = 0;
  ipfs_hash = req.ipfs_hash;
  provenance_type = req.provenance_type;
  source_type = req.source_type;
  vintage_year = req.vintage_year;
  minted_at = 0;
  minted_in_block = 0;
  minter = req.minter;
}

-- The handler's own `cert`, which MintFromCertificate got by value, is what `uftg_minted` shows.
unfoldable pub mint_answer :
    MintRequest
    → Certificate
    → ℕ
    → ChainState × Result Error Transaction
    → ChainState × Response Error MintAnswer
mint_answer req cert height (cs, err e) = (cs, failed e)
mint_answer req cert height (cs, ok tx) = (
  cs,
  success (record {
    tx_hash = tx.hash;
    block_height = height;
    certificate_id = req.certificate_id;
    mwh_amount = req.mwh_amount;
    uftg_minted = cert.tokens_minted;
    provider = req.provider;
    ipfs_hash = req.ipfs_hash;
    timestamp = tx.timestamp;
  }),
)

-- handleMint, once the body is read.
unfoldable pub mint_requested :
    ℕ → Time → Time → MintRequest → ChainState → ChainState × Response Error MintAnswer
unfolding certificate_of mint_answer
mint_requested height t u req cs =
    if str_eq req.certificate_id "" || sle req.mwh_amount 0
    then (cs, bad_request "certificate_id and mwh_amount > 0 are required")
    else mint_answer req (certificate_of req height) height
        (mint_from_certificate (certificate_of req height) height t u cs)

unfoldable pub handle_mint :
    String
    → Body MintRequest
    → ℕ
    → Time
    → Time
    → ChainState
    → ChainState × Response Error MintAnswer
unfolding mint_requested
handle_mint method body height t u cs = post_body method body (mint_requested height t u) cs

pub record BurnRequest : Type 0 where
  pub amount : ℕ
  pub burn_type : String
  pub burner : String
  pub reason : String

unfoldable pub event_of : BurnRequest → Time → BurnEvent
unfolding sprintf
event_of req now = record {
  id = sprintf "burn_" 1 now;
  amount = req.amount;
  burn_type = req.burn_type;
  burner = req.burner;
  reason = req.reason;
  burned_at = 0;
  block_height = 0;
}

pub record BurnAnswer (F : Type 0) : Type 0 where
  pub tx_hash : String
  pub block_height : ℕ
  pub amount_uftg : ℕ
  pub amount_ftg : F
  pub burn_type : String
  pub timestamp : Time

pub record TreasuryCommitRequest : Type 0 where
  pub amount : ℕ
  pub buyer_ref : String

pub record TreasuryCommitAnswer (F : Type 0) : Type 0 where
  pub amount_ftg : F
  pub buyer_ref : String
  pub message : String

pub record TreasuryLiquidityRequest : Type 0 where
  pub amount : ℕ

pub record TreasuryLiquidityAnswer (F : Type 0) : Type 0 where
  pub amount_ftg : F
  pub message : String

-- The treasury handlers drop the error of `io.ReadAll`, and the text of a JSON error.
unfoldable pub post_dropping :
    {S E A R : Type 0} → String → Body R → (R → S → S × Response E A) → S → S × Response E A
post_dropping method body handler s =
    if str_eq method "POST"
    then elim body.parsed [ err _ ↦ (s, bad_request "invalid JSON") | ok req ↦ handler req s ]
    else (s, method_not_allowed)

pub post_dropping_outcome :
    {S E A R : Type 0} (P : S × Bool → Type 0) (method : String) (body : Body R)
    (handler : R → S → S × Response E A) (s : S)
    → P (s, false)
    → ((req : R) → P (shown (handler req s)))
    → P (shown (post_dropping method body handler s))
unfolding post_dropping
post_dropping_outcome P method body handler s refused served =
    elim (Bool-cases (str_eq method "POST")) [
      | inl is_post ↦ elim (Result-cases body.parsed) [
        | inl e ↦ rw (is_post, e.1) refused
        | inr r ↦ rw (is_post, r.1) (served r.0)
      ]
      | inr other ↦ rw other refused
    ]

module _ {F : Type 0} (in_ftg : ℕ → F) where
  unfoldable pub burn_answer :
      BurnRequest
      → ℕ
      → ChainState × Result Error Transaction
      → ChainState × Response Error (BurnAnswer F)
  burn_answer req height (cs, err e) = (cs, failed e)
  burn_answer req height (cs, ok tx) = (
    cs,
    success (record {
      tx_hash = tx.hash;
      block_height = height;
      amount_uftg = req.amount;
      amount_ftg = in_ftg req.amount;
      burn_type = req.burn_type;
      timestamp = tx.timestamp;
    }),
  )

  unfoldable pub burn_requested :
      ℕ → Time → Time → Time → BurnRequest → ChainState → ChainState × Response Error (BurnAnswer F)
  unfolding event_of burn_answer
  burn_requested height named t u req cs =
      burn_answer req height (burn_tokens (event_of req named) height t u cs)

  -- handleBurn, with the three readings of the clock.
  unfoldable pub handle_burn :
      String
      → Body BurnRequest
      → ℕ
      → Time
      → Time
      → Time
      → ChainState
      → ChainState × Response Error (BurnAnswer F)
  unfolding burn_requested
  handle_burn method body height named t u cs =
      post_body method body (burn_requested height named t u) cs

  unfoldable pub commit_answer :
      TreasuryCommitRequest
      → ChainState × Result Error (Unit {0})
      → ChainState × Response Error (TreasuryCommitAnswer F)
  commit_answer req (cs, err e) = (cs, failed e)
  commit_answer req (cs, ok _) = (
    cs,
    success (record {
      amount_ftg = in_ftg req.amount;
      buyer_ref = req.buyer_ref;
      message = "Tokens moved from Minting → Committed. Off public market.";
    }),
  )

  unfoldable pub commit_requested :
      TreasuryCommitRequest → ChainState → ChainState × Response Error (TreasuryCommitAnswer F)
  unfolding commit_answer
  commit_requested req cs =
      commit_answer req (transfer_from_minting_to_committed req.amount req.buyer_ref cs)

  -- handleTreasuryCommit
  unfoldable pub handle_treasury_commit :
      String
      → Body TreasuryCommitRequest
      → ChainState
      → ChainState × Response Error (TreasuryCommitAnswer F)
  unfolding post_dropping commit_requested
  handle_treasury_commit method body cs = post_dropping method body commit_requested cs

  unfoldable pub liquidity_answer :
      TreasuryLiquidityRequest
      → ChainState × Result Error (Unit {0})
      → ChainState × Response Error (TreasuryLiquidityAnswer F)
  liquidity_answer req (cs, err e) = (cs, failed e)
  liquidity_answer req (cs, ok _) = (
    cs,
    success (record {
      amount_ftg = in_ftg req.amount;
      message = "Tokens moved from Minting → Liquidity. Available on DEX.";
    }),
  )

  unfoldable pub liquidity_requested :
      TreasuryLiquidityRequest
      → ChainState
      → ChainState × Response Error (TreasuryLiquidityAnswer F)
  unfolding liquidity_answer
  liquidity_requested req cs =
      liquidity_answer req (transfer_from_minting_to_liquidity req.amount cs)

  -- handleTreasuryToLiquidity
  unfoldable pub handle_treasury_to_liquidity :
      String
      → Body TreasuryLiquidityRequest
      → ChainState
      → ChainState × Response Error (TreasuryLiquidityAnswer F)
  unfolding post_dropping liquidity_requested
  handle_treasury_to_liquidity method body cs = post_dropping method body liquidity_requested cs
