-- ===== src/Provenance/History/Tests.antt =====
-- Runs of the registry on concrete calls, and instances of what is proved of every history. Amounts
-- of energy are numbers here.
use ftg_chain.Base.{ℕ, ◌≡◌, refl, some, List, [], ◌∷◌, arith}
use ftg_chain.Base.Word.{add64}
use ftg_chain.Base.Dict.{lookup, insert}
use ftg_chain.Base.Sprintf.{sprintf_unsigned}
use ftg_chain.Base.Result.{err}
use ftg_chain.Provenance.Types.{
  EnergySource, DocumentHash, ProvenanceRecord, new_store, energy_type_refused,
}
use ftg_chain.Provenance.Records.{
  Creation, creation_error, new_record, record_id, create_provenance_record, set_provenance_record,
  set_cert_to_provenance, get_provenance_record, get_provenance_by_certificate, is_accepted_type,
  refused_document,
}
use ftg_chain.Provenance.History.{Call, creates, documents, transfers, step, run}
use ftg_chain.Provenance.History.Grown.{Grown}
use ftg_chain.Provenance.History.Audit.{get_provenance_by_certificate-Grown}

abbrev source : EnergySource ℕ
source = record {
  source_type = "solar";
  provider = "Sunfield";
  location = "NV/US";
  generation_period_start = 1;
  generation_period_end = 2;
  mwh_quantity = 3;
  certificate_serial = "S-1";
  certificate_registry = "Green-e";
  vault_id = "";
  mcs_device_id = "";
}

abbrev paper : DocumentHash
paper = record {
  ipfs_hash = "Qm1";
  document_type = "certificate";
  description = "";
  uploaded_at = 3;
  file_size = 100;
  mime_type = "application/pdf";
}

abbrev batch : Creation ℕ
batch = record {
  certificate_id = "REC-1";
  token_batch_start = 1;
  token_batch_end = 300;
  provenance_type = "proof_of_generation";
  energy_source = source;
  documents = paper ∷ [];
  creator = "minter";
}

abbrev recorded : ProvenanceRecord ℕ
recorded = record {
  record_id = "FTG-PROV-000001";
  certificate_id = "REC-1";
  token_batch_start = 1;
  token_batch_end = 300;
  provenance_type = "proof_of_generation";
  energy_source = source;
  document_hashes = paper ∷ [];
  created_at = 10;
  created_by = "minter";
  chain_of_custody =
      record { from = ""; to = "minter"; timestamp = 11; reason = "initial_mint"; tx_hash = "" }
      ∷ [];
}

abbrev begun : List (Call ℕ)
begun = creates batch 10 11 ∷ []

abbrev sold : List (Call ℕ)
sold =
    transfers "FTG-PROV-000001" "minter" "buyer" "sale" "tx1" 20
    ∷ documents "FTG-PROV-000001" paper
    ∷ creates batch 30 31
    ∷ []

found : get_provenance_by_certificate "REC-1" (run begun new_store) ≡ some recorded
unfolding get_provenance_by_certificate get_provenance_record run step create_provenance_record
    creation_error is_accepted_type refused_document new_record record_id sprintf_unsigned
    set_provenance_record set_cert_to_provenance lookup insert add64
found = refl

abbrev coal : Creation ℕ
coal = record batch { energy_source = record source { source_type = "coal" } }

coal_refused :
    create_provenance_record coal 10 11 new_store ≡ (new_store, err (energy_type_refused "coal"))
unfolding create_provenance_record creation_error is_accepted_type
coal_refused = refl

get_provenance_by_certificate-Grown_example :
    (r' : ProvenanceRecord ℕ) × (get_provenance_by_certificate "REC-1"
        (run sold (run begun new_store))
      ≡ some r')
    × Grown recorded r'
get_provenance_by_certificate-Grown_example =
    get_provenance_by_certificate-Grown begun sold "REC-1" recorded (omega arith) found
