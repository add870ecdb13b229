-- ===== src/Provenance/Types.antt =====
-- x/provenance/types/types.go and the store of x/provenance/keeper/keeper.go. The store holds its
-- three kinds of keys apart: records, the index from certificates, and the counter; a value that is
-- written as JSON is read back as it was. `Decimal` is the type of cosmossdk.io/math's LegacyDec, which
-- the module carries along. An address is the text of its bytes, the empty one for nil; a count is a
-- uint64 word.
use ftg_chain.Base.{ℕ, Bool, true, List, [], ◌∷◌, String}
use ftg_chain.Base.Dict.{Dict}
use ftg_chain.Base.Time.{Time}

abbrev pub Address : Type 0
Address = String

pub record EnergySource (Decimal : Type 0) : Type 0 where
  pub source_type : String
  pub provider : String
  pub location : String
  pub generation_period_start : Time
  pub generation_period_end : Time
  pub mwh_quantity : Decimal
  pub certificate_serial : String
  pub certificate_registry : String
  pub vault_id : String
  pub mcs_device_id : String

pub record DocumentHash : Type 0 where
  pub ipfs_hash : String
  pub document_type : String
  pub description : String
  pub uploaded_at : Time
  pub file_size : ℕ
  pub mime_type : String

pub record CustodyEvent : Type 0 where
  pub from : Address
  pub to : Address
  pub timestamp : Time
  pub reason : String
  pub tx_hash : String

pub record ProvenanceRecord (Decimal : Type 0) : Type 0 where
  pub record_id : String
  pub certificate_id : String
  pub token_batch_start : ℕ
  pub token_batch_end : ℕ
  pub provenance_type : String
  pub energy_source : EnergySource Decimal
  pub document_hashes : List DocumentHash
  pub created_at : Time
  pub created_by : Address
  pub chain_of_custody : List CustodyEvent

pub record Params : Type 0 where
  pub require_document_hash : Bool
  pub max_documents_per_record : ℕ
  pub accepted_document_types : List String
  pub accepted_energy_types : List String

abbrev pub default_params : Params
default_params = record {
  require_document_hash = true;
  max_documents_per_record = 20;
  accepted_document_types =
      "certificate" ∷ "invoice" ∷ "meter_reading" ∷ "audit_report" ∷ "photo" ∷ [];
  accepted_energy_types =
      "solar" ∷ "wind" ∷ "hydro" ∷ "geothermal" ∷ "biomass" ∷ "mixed_renewable" ∷ [];
}

pub record Store (Decimal : Type 0) : Type 0 where
  pub records : Dict (ProvenanceRecord Decimal)
  pub cert_to_provenance : Dict String
  pub count : ℕ

abbrev pub new_store : {Decimal : Type 0} → Store Decimal
new_store = record { records = []; cert_to_provenance = []; count = 0 }

-- Why a call fails, with the values that the message shows.
pub data Error : Type 0 where
  document_required : Error
  too_many_documents : ℕ → ℕ → Error
  energy_type_refused document_type_refused : String → Error
  record_exists record_not_found maximum_documents no_record : String → Error
