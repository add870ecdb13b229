-- ===== src/Node/ChainState.antt =====
-- cmd/ftgd/chain_state.go: the supply, the certificates, the burns and the three treasury balances
-- of the node. Amounts and heights are int64 words, `VintageYear` a 64-bit int. `save` writes the
-- state to a file and is left out, as is the lock. The two readings of the clock of a call are its
-- arguments.
pub mod History
pub mod Supply
pub mod Registered
pub mod Amounts
mod Tests
use Prim.Native.String.{◌++◌ as ◌<>◌}
use ftg_chain.Base.{ℕ, Bool, true, false, List, [], ◌∷◌, ◌++◌, String, str_eq, if◌then◌else◌}
use ftg_chain.Base.Word.{add64, sub64, mul64, slt}
use ftg_chain.Base.Sprintf.{sprintf}
use ftg_chain.Base.Time.{Time}
use ftg_chain.Base.Result.{Result, ok, err}

pub record Certificate : Type 0 where
  pub id : String
  pub external_id : String
  pub provider : String
  pub mwh_amount : ℕ
  pub tokens_minted : ℕ
  pub ipfs_hash : String
  pub provenance_type : String
  pub source_type : String
  pub vintage_year : ℕ
  pub minted_at : Time
  pub minted_in_block : ℕ
  pub minter : String

pub record BurnEvent : Type 0 where
  pub id : String
  pub amount : ℕ
  pub burn_type : String
  pub burner : String
  pub reason : String
  pub burned_at : Time
  pub block_height : ℕ

-- The JSON object in a transaction's `Data`: of a mint the certificate, its MWh, its tokens and its
-- provider; of a burn the amount, the type and the reason.
pub data TxData : Type 0 where
  mint_data : String → ℕ → ℕ → String → TxData
  burn_data : ℕ → String → String → TxData

pub record Transaction : Type 0 where
  pub hash : String
  pub tx_type : String
  pub height : ℕ
  pub timestamp : Time
  pub tx_data : TxData
  pub status : String

pub record ChainState : Type 0 where
  pub total_minted : ℕ
  pub total_burned : ℕ
  pub total_supply : ℕ
  pub total_mwh : ℕ
  pub treasury_minting : ℕ
  pub treasury_committed : ℕ
  pub treasury_liquidity : ℕ
  pub certificates : List Certificate
  pub burn_events : List BurnEvent
  pub transactions : List Transaction

-- The state of a home directory that holds no saved state.
abbrev pub new_chain_state : ChainState
new_chain_state = record {
  total_minted = 0;
  total_burned = 0;
  total_supply = 0;
  total_mwh = 0;
  treasury_minting = 0;
  treasury_committed = 0;
  treasury_liquidity = 0;
  certificates = [];
  burn_events = [];
  transactions = [];
}

-- Why a call fails, with the values that the message shows.
pub data Error : Type 0 where
  already_registered : String → Error
  insufficient_supply : ℕ → ℕ → Error
  insufficient_minting : ℕ → ℕ → Error

-- for _, existing := range cs.Certificates { if existing.ExternalID == id { … } }
unfoldable pub is_registered : String → List Certificate → Bool
is_registered id [] = false
is_registered id (c ∷ cs) = if str_eq c.external_id id then true else is_registered id cs

-- cert.MWhAmount * 100 * 1_000_000
unfoldable pub tokens_uftg : ℕ → ℕ
tokens_uftg mwh = mul64 (mul64 mwh 100) 1000000

unfoldable pub mint_transaction : Certificate → ℕ → Time → Transaction
unfolding sprintf tokens_uftg
mint_transaction cert block_height now = record {
  hash = sprintf ("MINT_" <> (cert.external_id <> "_")) 1 block_height;
  tx_type = "energymint/MsgMintFromCertificate";
  height = block_height;
  timestamp = now;
  tx_data = mint_data cert.external_id cert.mwh_amount (tokens_uftg cert.mwh_amount) cert.provider;
  status = "success";
}

unfoldable pub minted_certificate : Certificate → ℕ → Time → Certificate
unfolding tokens_uftg
minted_certificate cert block_height now = record cert {
  tokens_minted = tokens_uftg cert.mwh_amount;
  minted_at = now;
  minted_in_block = block_height;
}

-- MintFromCertificate
unfoldable pub mint_from_certificate :
    Certificate → ℕ → Time → Time → ChainState → ChainState × Result Error Transaction
unfolding is_registered tokens_uftg mint_transaction minted_certificate
mint_from_certificate cert block_height minted_at now cs =
    if is_registered cert.external_id cs.certificates
    then (cs, err (already_registered cert.external_id))
    else (let tokens = tokens_uftg cert.mwh_amount in
        let tx = mint_transaction cert block_height now in
        (
          record cs {
            certificates = cs.certificates ++ minted_certificate cert block_height minted_at ∷ [];
            total_minted = add64 cs.total_minted tokens;
            total_supply = add64 cs.total_supply tokens;
            total_mwh = add64 cs.total_mwh cert.mwh_amount;
            treasury_minting = add64 cs.treasury_minting tokens;
            transactions = cs.transactions ++ tx ∷ [];
          },
          ok tx,
        ))

unfoldable pub burn_transaction : BurnEvent → ℕ → Time → Transaction
unfolding sprintf
burn_transaction event block_height now = record {
  hash = sprintf ("BURN_" <> (event.id <> "_")) 1 block_height;
  tx_type = "ftgburn/MsgBurn";
  height = block_height;
  timestamp = now;
  tx_data = burn_data event.amount event.burn_type event.reason;
  status = "success";
}

unfoldable pub burned_event : BurnEvent → ℕ → Time → BurnEvent
burned_event event block_height now = record event { burned_at = now; block_height = block_height }

-- BurnTokens
unfoldable pub burn_tokens :
    BurnEvent → ℕ → Time → Time → ChainState → ChainState × Result Error Transaction
unfolding burn_transaction burned_event
burn_tokens event block_height burned_at now cs =
    if slt cs.total_supply event.amount
    then (cs, err (insufficient_supply event.amount cs.total_supply))
    else (let tx = burn_transaction event block_height now in
        (
          record cs {
            burn_events = cs.burn_events ++ burned_event event block_height burned_at ∷ [];
            total_burned = add64 cs.total_burned event.amount;
            total_supply = sub64 cs.total_supply event.amount;
            transactions = cs.transactions ++ tx ∷ [];
          },
          ok tx,
        ))

-- TransferFromMintingToCommitted. The reference of the buyer is not used.
unfoldable pub transfer_from_minting_to_committed :
    ℕ → String → ChainState → ChainState × Result Error (Unit {0})
transfer_from_minting_to_committed amount buyer_ref cs =
    if slt cs.treasury_minting amount
    then (cs, err (insufficient_minting amount cs.treasury_minting))
    else (
      record cs {
        treasury_minting = sub64 cs.treasury_minting amount;
        treasury_committed = add64 cs.treasury_committed amount;
      },
      ok tt,
    )

-- TransferFromMintingToLiquidity
unfoldable pub transfer_from_minting_to_liquidity :
    ℕ → ChainState → ChainState × Result Error (Unit {0})
transfer_from_minting_to_liquidity amount cs =
    if slt cs.treasury_minting amount
    then (cs, err (insufficient_minting amount cs.treasury_minting))
    else (
      record cs {
        treasury_minting = sub64 cs.treasury_minting amount;
        treasury_liquidity = add64 cs.treasury_liquidity amount;
      },
      ok tt,
    )
