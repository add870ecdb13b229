-- ===== src/Provenance/History/Grown.antt =====
-- How a record of x/provenance changes under its calls: documents and custody events are added, and
-- nothing else changes.
use mathlib.Core.List.{append-nil, append_assoc}
use ftg_chain.Base.{◌≡◌, refl, sym, ap, ◌∙◌, List, [], ◌∷◌, ◌++◌}
use ftg_chain.Provenance.Types.{DocumentHash, CustodyEvent, ProvenanceRecord}
use ftg_chain.Provenance.Records.{with_document, with_event}

-- A record after some calls: what it said at its creation stands, and documents and custody events
-- were added behind those that it had.
pub record Grown {Decimal : Type 0} (r r' : ProvenanceRecord Decimal) : Type 0 where
  pub same_id : r'.record_id ≡ r.record_id
  pub same_certificate : r'.certificate_id ≡ r.certificate_id
  pub same_start : r'.token_batch_start ≡ r.token_batch_start
  pub same_end : r'.token_batch_end ≡ r.token_batch_end
  pub same_type : r'.provenance_type ≡ r.provenance_type
  pub same_source : r'.energy_source ≡ r.energy_source
  pub same_time : r'.created_at ≡ r.created_at
  pub same_creator : r'.created_by ≡ r.created_by
  pub more_documents :
      (added : List DocumentHash) × (r'.document_hashes ≡ r.document_hashes ++ added)
  pub more_events :
      (added : List CustodyEvent) × (r'.chain_of_custody ≡ r.chain_of_custody ++ added)

chained :
    {A : Type 0} (xs ys zs : List A)
    → ((added : List A) × (ys ≡ xs ++ added))
    → ((added : List A) × (zs ≡ ys ++ added))
    → (added : List A) × (zs ≡ xs ++ added)
chained xs ys zs (a, e) (b, f) = (a ++ b, f ∙ ap (λ l. l ++ b) e ∙ append_assoc xs a b)

module _ {Decimal : Type 0} where
  -- A change of the two lists only.
  Grown-lists :
      (r : ProvenanceRecord Decimal) (docs : List DocumentHash) (events : List CustodyEvent)
      → ((added : List DocumentHash) × (docs ≡ r.document_hashes ++ added))
      → ((added : List CustodyEvent) × (events ≡ r.chain_of_custody ++ added))
      → Grown r (record r { document_hashes = docs; chain_of_custody = events })
  Grown-lists r docs events d e = record {
    same_id = refl;
    same_certificate = refl;
    same_start = refl;
    same_end = refl;
    same_type = refl;
    same_source = refl;
    same_time = refl;
    same_creator = refl;
    more_documents = d;
    more_events = e;
  }

  pub Grown-refl : (r : ProvenanceRecord Decimal) → Grown r r
  Grown-refl r =
      Grown-lists r r.document_hashes r.chain_of_custody ([], sym (append-nil r.document_hashes))
        ([], sym (append-nil r.chain_of_custody))

  pub Grown-document :
      (r : ProvenanceRecord Decimal) (doc : DocumentHash) → Grown r (with_document doc r)
  Grown-document r doc =
      Grown-lists r (r.document_hashes ++ doc ∷ []) r.chain_of_custody (doc ∷ [], refl)
        ([], sym (append-nil r.chain_of_custody))

  pub Grown-event :
      (r : ProvenanceRecord Decimal) (event : CustodyEvent) → Grown r (with_event event r)
  Grown-event r event =
      Grown-lists r r.document_hashes (r.chain_of_custody ++ event ∷ [])
        ([], sym (append-nil r.document_hashes)) (event ∷ [], refl)

  pub Grown-trans : (r s t : ProvenanceRecord Decimal) → Grown r s → Grown s t → Grown r t
  Grown-trans r s t g h = record {
    same_id = h.same_id ∙ g.same_id;
    same_certificate = h.same_certificate ∙ g.same_certificate;
    same_start = h.same_start ∙ g.same_start;
    same_end = h.same_end ∙ g.same_end;
    same_type = h.same_type ∙ g.same_type;
    same_source = h.same_source ∙ g.same_source;
    same_time = h.same_time ∙ g.same_time;
    same_creator = h.same_creator ∙ g.same_creator;
    more_documents =
        chained r.document_hashes s.document_hashes t.document_hashes g.more_documents
          h.more_documents;
    more_events =
        chained r.chain_of_custody s.chain_of_custody t.chain_of_custody g.more_events
          h.more_events;
  }
