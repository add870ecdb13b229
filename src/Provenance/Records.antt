-- ===== src/Provenance/Records.antt =====
-- The operations of x/provenance/keeper/keeper.go, and the queries of keeper/query_server.go. The two
-- readings of the clock of a creation are arguments.
use ftg_chain.Base.{
  ℕ, ◌+◌, ◌%◌, ◌&&◌, Bool, true, false, Option, none, some, List, [], ◌∷◌, ◌++◌, String, str_eq,
  ltb, ◌==◌, if◌then◌else◌,
}
use ftg_chain.Base.Word.{add64}
use ftg_chain.Base.Dict.{lookup, insert}
use ftg_chain.Base.Lists.{length}
use ftg_chain.Base.Sprintf.{sprintf_unsigned}
use ftg_chain.Base.Time.{Time}
use ftg_chain.Base.Result.{Result, ok, err}
use ftg_chain.Provenance.Types.{
  Address, EnergySource, DocumentHash, CustodyEvent, ProvenanceRecord, Params, default_params,
  Store, Error, document_required, too_many_documents, energy_type_refused, document_type_refused,
  record_exists, record_not_found, maximum_documents, no_record,
}

-- isAcceptedType
unfoldable pub is_accepted_type : List String → String → Bool
is_accepted_type [] t = false
is_accepted_type (a ∷ accepted) t = if str_eq a t then true else is_accepted_type accepted t

-- uint32(n)
abbrev pub uint32 : ℕ → ℕ
uint32 n = n % 4294967296

unfoldable pub record_id : ℕ → String
unfolding sprintf_unsigned
record_id = sprintf_unsigned "FTG-PROV-" 6

-- The first document whose type is not accepted.
unfoldable pub refused_document : List String → List DocumentHash → Option String
unfolding is_accepted_type
refused_document accepted [] = none
refused_document accepted (doc ∷ docs) =
    if is_accepted_type accepted doc.document_type
    then refused_document accepted docs
    else some doc.document_type

-- What a caller gives for a record.
pub record Creation (Decimal : Type 0) : Type 0 where
  pub certificate_id : String
  pub token_batch_start : ℕ
  pub token_batch_end : ℕ
  pub provenance_type : String
  pub energy_source : EnergySource Decimal
  pub documents : List DocumentHash
  pub creator : Address

-- The checks of CreateProvenanceRecord, in the order of the source.
unfoldable pub creation_error :
    {Decimal : Type 0} → Params → Creation Decimal → Store Decimal → Option Error
unfolding is_accepted_type refused_document
creation_error params c s =
    if params.require_document_hash && (length c.documents == 0)
    then some document_required
    else if ltb params.max_documents_per_record (uint32 (length c.documents))
    then some (too_many_documents (length c.documents) params.max_documents_per_record)
    else if is_accepted_type params.accepted_energy_types c.energy_source.source_type
    then elim (refused_document params.accepted_document_types c.documents) [
      | some t ↦ some (document_type_refused t)
      | none ↦ elim (lookup c.certificate_id s.cert_to_provenance) [
        | some _ ↦ some (record_exists c.certificate_id)
        | none ↦ none
      ]
    ]
    else some (energy_type_refused c.energy_source.source_type)

unfoldable pub new_record :
    {Decimal : Type 0} → Creation Decimal → ℕ → Time → Time → ProvenanceRecord Decimal
new_record c count created_at minted_at = record {
  record_id = record_id count;
  certificate_id = c.certificate_id;
  token_batch_start = c.token_batch_start;
  token_batch_end = c.token_batch_end;
  provenance_type = c.provenance_type;
  energy_source = c.energy_source;
  document_hashes = c.documents;
  created_at = created_at;
  created_by = c.creator;
  chain_of_custody =
      record {
        from = "";
        to = c.creator;
        timestamp = minted_at;
        reason = "initial_mint";
        tx_hash = "";
      }
      ∷ [];
}

-- SetProvenanceRecord
unfoldable pub set_provenance_record :
    {Decimal : Type 0} → ProvenanceRecord Decimal → Store Decimal → Store Decimal
set_provenance_record r s = record s { records = insert r.record_id r s.records }

-- SetCertToProvenance
unfoldable pub set_cert_to_provenance :
    {Decimal : Type 0} → String → String → Store Decimal → Store Decimal
set_cert_to_provenance cert_id id s = record s {
  cert_to_provenance = insert cert_id id s.cert_to_provenance;
}

-- CreateProvenanceRecord
unfoldable pub create_provenance_record :
    {Decimal : Type 0}
    → Creation Decimal
    → Time
    → Time
    → Store Decimal
    → Store Decimal × Result Error (ProvenanceRecord Decimal)
unfolding creation_error new_record set_provenance_record set_cert_to_provenance
create_provenance_record c created_at minted_at s = elim (creation_error default_params c s) [
  | some e ↦ (s, err e)
  | none ↦
      let r = new_record c (add64 s.count 1) created_at minted_at in
      (
        set_cert_to_provenance c.certificate_id r.record_id
            (set_provenance_record r (record s { count = add64 s.count 1 })),
        ok r,
      )
]

-- GetProvenanceRecord
unfoldable pub get_provenance_record :
    {Decimal : Type 0} → String → Store Decimal → Option (ProvenanceRecord Decimal)
get_provenance_record id s = lookup id s.records

-- GetProvenanceByCertificate
unfoldable pub get_provenance_by_certificate :
    {Decimal : Type 0} → String → Store Decimal → Option (ProvenanceRecord Decimal)
unfolding get_provenance_record
get_provenance_by_certificate cert_id s = elim (lookup cert_id s.cert_to_provenance) [
  | none ↦ none
  | some id ↦ get_provenance_record id s
]

abbrev pub with_document :
    {Decimal : Type 0} → DocumentHash → ProvenanceRecord Decimal → ProvenanceRecord Decimal
with_document doc r = record r { document_hashes = r.document_hashes ++ doc ∷ [] }

-- AddDocumentToRecord
unfoldable pub add_document_to_record :
    {Decimal : Type 0}
    → String
    → DocumentHash
    → Store Decimal
    → Store Decimal × Result Error (Unit {0})
unfolding set_provenance_record
add_document_to_record id doc s = elim (lookup id s.records) [
  | none ↦ (s, err (record_not_found id))
  | some r ↦
      if ltb default_params.max_documents_per_record (uint32 (length r.document_hashes + 1))
      then (s, err (maximum_documents id))
      else (set_provenance_record (with_document doc r) s, ok tt)
]

abbrev pub with_event :
    {Decimal : Type 0} → CustodyEvent → ProvenanceRecord Decimal → ProvenanceRecord Decimal
with_event event r = record r { chain_of_custody = r.chain_of_custody ++ event ∷ [] }

abbrev pub custody_event : Address → Address → String → String → Time → CustodyEvent
custody_event from to reason tx_hash now = record {
  from = from;
  to = to;
  timestamp = now;
  reason = reason;
  tx_hash = tx_hash;
}

-- RecordCustodyTransfer
unfoldable pub record_custody_transfer :
    {Decimal : Type 0}
    → String
    → Address
    → Address
    → String
    → String
    → Time
    → Store Decimal
    → Store Decimal × Result Error (Unit {0})
unfolding set_provenance_record
record_custody_transfer id from to reason tx_hash now s = elim (lookup id s.records) [
  | none ↦ (s, err (record_not_found id))
  | some r ↦
      (set_provenance_record (with_event (custody_event from to reason tx_hash now) r) s, ok tt)
]

-- The queries ProvenanceRecord and ProvenanceByCertificate.
unfoldable pub query_provenance_record :
    {Decimal : Type 0} → String → Store Decimal → Result Error (ProvenanceRecord Decimal)
unfolding get_provenance_record
query_provenance_record id s = elim (get_provenance_record id s) [
  | none ↦ err (record_not_found id)
  | some r ↦ ok r
]

unfoldable pub query_provenance_by_certificate :
    {Decimal : Type 0} → String → Store Decimal → Result Error (ProvenanceRecord Decimal)
unfolding get_provenance_by_certificate
query_provenance_by_certificate cert_id s = elim (get_provenance_by_certificate cert_id s) [
  | none ↦ err (no_record cert_id)
  | some r ↦ ok r
]
