-- ===== src/EnergyMint/Messages.antt =====
-- x/energymint/keeper/msg_server.go and query_server.go, with the messages of types/msgs.go and
-- types/query.go.
use ftg_chain.Base.{Bool, Option, none, some, String, str_eq, if◌then◌else◌}
use ftg_chain.Base.Time.{Time}
use ftg_chain.Base.Result.{Result, ok, err}
use ftg_chain.Sdk.Numbers.{Numbers}
use ftg_chain.Sdk.MintBank.{MintBank}
use ftg_chain.Sdk.Texts.{Texts}
use ftg_chain.EnergyMint.Types.{Certificate, unset, MintResponse, Store, Error}
use ftg_chain.EnergyMint.Minting.{
  mint_from_certificate, add_authorized_minter, remove_authorized_minter, get_certificate,
  is_authorized_minter,
}

pub record MsgMintFromCertificate (Decimal : Type 0) : Type 0 where
  pub sender : String
  pub external_id : String
  pub source : String
  pub mwh_quantity : Decimal
  pub generation_date : Time
  pub purchase_date : Time
  pub ipfs_hash : String
  pub provenance_type : String
  pub destination_wallet : String

pub record MsgMintFromCertificateResponse : Type 0 where
  pub certificate_id : String
  pub tokens_minted : String
  pub recipient : String

pub record MsgAddMinter : Type 0 where
  pub authority : String
  pub minter_address : String

pub record MsgRemoveMinter : Type 0 where
  pub authority : String
  pub minter_address : String

-- Why a message or a query fails.
pub data MsgError (Decimal : Type 0) : Type 0 where
  invalid_address not_found : String → MsgError Decimal
  not_authority : MsgError Decimal
  refused : Error Decimal → MsgError Decimal

-- The certificate of a message; its other fields are the zero ones.
abbrev pub requested_certificate :
    {Int Decimal : Type 0}
    → Numbers Int Decimal
    → MsgMintFromCertificate Decimal
    → Certificate Int Decimal
requested_certificate m msg = record {
  certificate_id = "";
  external_id = msg.external_id;
  source = msg.source;
  mwh_quantity = msg.mwh_quantity;
  generation_date = msg.generation_date;
  purchase_date = msg.purchase_date;
  ipfs_hash = msg.ipfs_hash;
  provenance_type = msg.provenance_type;
  minted_tokens = m.nil_int;
  mint_timestamp = 0;
  owner = "";
  status = unset;
}

module _ {Int Decimal : Type 0} (texts : Texts Int Decimal) where
  -- The destination that a message names, the empty address for none.
  unfoldable pub destination_of : String → Option String
  destination_of wallet = if str_eq wallet "" then some "" else texts.address_of wallet

  unfoldable pub mint_response :
      {S : Type 0}
      → S × Result (Error Decimal) (MintResponse Int)
      → S × Result (MsgError Decimal) MsgMintFromCertificateResponse
  mint_response (k, err e) = (k, err (refused e))
  mint_response (k, ok resp) = (
    k,
    ok (record {
      certificate_id = resp.certificate_id;
      tokens_minted = texts.show_int resp.tokens_minted;
      recipient = texts.show_address resp.recipient;
    }),
  )

  module _ {S : Type 0} where
    -- MintFromCertificate
    unfoldable pub mint_requested :
        Numbers Int Decimal
        → MintBank S Int
        → MsgMintFromCertificate Decimal
        → Time
        → Store S Int Decimal
        → Store S Int Decimal × Result (MsgError Decimal) MsgMintFromCertificateResponse
    unfolding destination_of mint_response
    mint_requested m b msg now k = elim (texts.address_of msg.sender) [
      | none ↦ (k, err (invalid_address msg.sender))
      | some sender ↦ elim (destination_of msg.destination_wallet) [
        | none ↦ (k, err (invalid_address msg.destination_wallet))
        | some destination ↦
            mint_response
              (mint_from_certificate m b sender (requested_certificate m msg) destination now k)
      ]
    ]

    -- AddMinter
    unfoldable pub add_minter :
        String
        → MsgAddMinter
        → Store S Int Decimal
        → Store S Int Decimal × Result (MsgError Decimal) (Unit {0})
    add_minter authority msg k =
        if str_eq msg.authority authority
        then elim (texts.address_of msg.minter_address) [
          | none ↦ (k, err (invalid_address msg.minter_address))
          | some minter ↦ (add_authorized_minter minter k, ok tt)
        ]
        else (k, err not_authority)

    -- RemoveMinter
    unfoldable pub remove_minter :
        String
        → MsgRemoveMinter
        → Store S Int Decimal
        → Store S Int Decimal × Result (MsgError Decimal) (Unit {0})
    remove_minter authority msg k =
        if str_eq msg.authority authority
        then elim (texts.address_of msg.minter_address) [
          | none ↦ (k, err (invalid_address msg.minter_address))
          | some minter ↦ (remove_authorized_minter minter k, ok tt)
        ]
        else (k, err not_authority)

    -- The query Certificate.
    unfoldable pub query_certificate :
        String → Store S Int Decimal → Result (MsgError Decimal) (Certificate Int Decimal)
    unfolding get_certificate
    query_certificate external_id k = elim (get_certificate external_id k) [
      | none ↦ err (not_found external_id)
      | some cert ↦ ok cert
    ]

    -- The query IsAuthorizedMinter.
    unfoldable pub query_is_authorized_minter :
        String → Store S Int Decimal → Result (MsgError Decimal) Bool
    unfolding is_authorized_minter
    query_is_authorized_minter address k = elim (texts.address_of address) [
      | none ↦ err (invalid_address address)
      | some a ↦ ok (is_authorized_minter a k)
    ]

-- QueryTotalSupplyResponse
pub record TotalSupplyResponse : Type 0 where
  pub total_minted_uftg : String
  pub total_backed_mwh : String
  pub total_ftg_tokens : String

-- The query TotalSupply.
unfoldable pub query_total_supply :
    {S Int Decimal : Type 0}
    → Texts Int Decimal
    → Numbers Int Decimal
    → Store S Int Decimal
    → TotalSupplyResponse
query_total_supply texts m k = record {
  total_minted_uftg = texts.show_int k.total_minted;
  total_backed_mwh = texts.show_dec k.total_backed_mwh;
  total_ftg_tokens = texts.show_int (m.int_quo k.total_minted (m.new_int 1000000));
}
