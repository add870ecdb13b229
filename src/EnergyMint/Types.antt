-- ===== src/EnergyMint/Types.antt =====
-- x/energymint/types/types.go, and the store of x/energymint/keeper/keeper.go with the bank's state
-- beside it. A value that is written as JSON or by Marshal is read back as it was. An address is the
-- text of its bytes, the empty one for nil.
use ftg_chain.Base.{ℕ, Bool, true, List, [], ◌∷◌, String}
use ftg_chain.Base.Dict.{Dict}
use ftg_chain.Base.Time.{Time}
use ftg_chain.Sdk.Numbers.{Numbers}

-- The texts that the code gives a certificate; `unset` is the empty one.
pub data CertificateStatus : Type 0 where
  unset active : CertificateStatus

pub record Certificate (Int Decimal : Type 0) : Type 0 where
  pub certificate_id : String
  pub external_id : String
  pub source : String
  pub mwh_quantity : Decimal
  pub generation_date : Time
  pub purchase_date : Time
  pub ipfs_hash : String
  pub provenance_type : String
  pub minted_tokens : Int
  pub mint_timestamp : Time
  pub owner : String
  pub status : CertificateStatus

pub record MintResponse (Int : Type 0) : Type 0 where
  pub certificate_id : String
  pub tokens_minted : Int
  pub recipient : String
  pub tx_hash : String

pub record Params (Decimal : Type 0) : Type 0 where
  pub authorized_minters : List String
  pub min_certificate_mwh : Decimal
  pub require_ipfs : Bool
  pub accepted_provenance_types : List String

pub record Store (S Int Decimal : Type 0) : Type 0 where
  pub bank : S
  pub certificates : Dict (Certificate Int Decimal)
  pub count : ℕ
  pub total_minted : Int
  pub total_backed_mwh : Decimal
  pub authorized_minters : Dict (Unit {0})
  pub params : Params Decimal

-- Why a mint fails, with the values that the message shows. `overflowed` is the panic of a product, a
-- sum or a conversion, which ends the transaction and takes back what it wrote.
pub data Error (Decimal : Type 0) : Type 0 where
  not_a_minter provenance_refused already_registered : String → Error Decimal
  ipfs_required mint_failed send_failed overflowed : Error Decimal
  below_minimum : Decimal → Decimal → Error Decimal

module _ {Int Decimal : Type 0} (m : Numbers Int Decimal) where
  -- DefaultParams
  abbrev pub default_params : Params Decimal
  default_params = record {
    authorized_minters = [];
    min_certificate_mwh = m.new_dec_with_prec 1 0;
    require_ipfs = true;
    accepted_provenance_types =
        "proof_of_purchase" ∷ "proof_of_generation" ∷ "proof_of_storage" ∷ [];
  }

  -- Nothing is stored: the totals read as zero, and the parameters as the default ones.
  abbrev pub new_store : {S : Type 0} → S → Store S Int Decimal
  new_store s = record {
    bank = s;
    certificates = [];
    count = 0;
    total_minted = m.new_int 0;
    total_backed_mwh = m.new_dec_with_prec 0 0;
    authorized_minters = [];
    params = default_params;
  }
