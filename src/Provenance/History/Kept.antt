-- ===== src/Provenance/History/Kept.antt =====
-- What one call of x/provenance keeps of the registry.
use mathlib.Core.Option.{none-ne-some}
use ftg_chain.Base.{
  subst, ◌&&◌, ◌==◌, ℕ, suc, ◌+◌, ◌<◌, ◌≡◌, refl, sym, ap, ◌∙◌, ◌≢◌, inl, inr, Option, none, some,
  some_eq, Option-cases, Bool-cases, String, arith, str_eq, eq_iff, ltb, else_none, then_none,
}
use ftg_chain.Base.Word.{half, add64, add64_nat}
use ftg_chain.Base.Dict.{Dict, lookup, insert, lookup-insert, lookup-insert_ne}
use ftg_chain.Base.Fresh.{Fresh, Fresh-new, Fresh-old}
use ftg_chain.Base.Lists.{length}
use ftg_chain.Base.Sprintf.{sprintf, sprintf_unsigned-sprintf}
use ftg_chain.Base.Time.{Time}
use ftg_chain.Base.Result.{state_either}
use ftg_chain.Provenance.Types.{
  Address, DocumentHash, ProvenanceRecord, Store, default_params, Error, record_exists,
  document_type_refused, energy_type_refused, too_many_documents, document_required,
}
use ftg_chain.Provenance.Records.{
  Creation, creation_error, new_record, record_id, create_provenance_record, set_provenance_record,
  set_cert_to_provenance, with_document, add_document_to_record, with_event, custody_event,
  record_custody_transfer, uint32, refused_document, is_accepted_type,
}
use ftg_chain.Provenance.History.{Call, creates, documents, transfers, step}
use ftg_chain.Provenance.History.Grown.{Grown, Grown-refl, Grown-document, Grown-event, Grown-trans}

-- Each record stands under its own identifier, and there are numbers left for `room` more.
pub record Named {Decimal : Type 0} (room : ℕ) (s : Store Decimal) : Type 0 where
  pub within : s.count + room < half
  pub fresh : Fresh "FTG-PROV-" 6 s.count s.records
  pub named :
      (id : String) (r : ProvenanceRecord Decimal) → lookup id s.records ≡ some r → r.record_id ≡ id

-- The records and the index of `s` are found in `s'`, the records grown.
pub record Extends {Decimal : Type 0} (s s' : Store Decimal) : Type 0 where
  pub grown :
      (id : String) (r : ProvenanceRecord Decimal)
      → lookup id s.records ≡ some r
      → (r' : ProvenanceRecord Decimal) × (lookup id s'.records ≡ some r') × Grown r r'
  pub indexed :
      (cert id : String)
      → lookup cert s.cert_to_provenance ≡ some id
      → lookup cert s'.cert_to_provenance ≡ some id

module _ {Decimal : Type 0} where
  pub Extends-refl : (s : Store Decimal) → Extends s s
  Extends-refl s = record { grown = λ id r e. (r, e, Grown-refl r); indexed = λ cert id e. e }

  pub Extends-trans : (s t u : Store Decimal) → Extends s t → Extends t u → Extends s u
  Extends-trans s t u f g = record {
    grown = λ id r e.
        let (r₁, e₁, h₁) = f.grown id r e in
        let (r₂, e₂, h₂) = g.grown id r₁ e₁ in (r₂, e₂, Grown-trans r r₁ r₂ h₁ h₂);
    indexed = λ cert id e. g.indexed cert id (f.indexed cert id e);
  }

  insert-named :
      (m : Dict (ProvenanceRecord Decimal)) (key : String) (r : ProvenanceRecord Decimal)
      → ((id : String) (q : ProvenanceRecord Decimal) → lookup id m ≡ some q → q.record_id ≡ id)
      → r.record_id ≡ key
      → (id : String) (q : ProvenanceRecord Decimal) → lookup id (insert key r m) ≡ some q
      → q.record_id ≡ id
  insert-named m key r named name id q h = elim (Bool-cases (str_eq key id)) [
    | inl same ↦
        let stored : some r ≡ some q = rw same at (sym (lookup-insert key id r m) ∙ h) in
        let here : key ≡ id = ground (arith, eq_iff key id) in
        ap (λ x. x.record_id) (sym (some_eq stored)) ∙ name ∙ here
    | inr other ↦ named id q (rw other at (sym (lookup-insert key id r m) ∙ h))
  ]

  insert-Grown :
      (m : Dict (ProvenanceRecord Decimal)) (key : String) (r r' : ProvenanceRecord Decimal)
      → lookup key m ≡ some r
      → Grown r r'
      → (id : String) (q : ProvenanceRecord Decimal) → lookup id m ≡ some q
      → (q' : ProvenanceRecord Decimal) × (lookup id (insert key r' m) ≡ some q') × Grown q q'
  insert-Grown m key r r' e g id q h = elim (Bool-cases (str_eq key id)) [
    | inl same ↦
        let here : key ≡ id = ground (arith, eq_iff key id) in
        let q_r : q ≡ r = some_eq (sym h ∙ ap (λ i. lookup i m) (sym here) ∙ e) in
        (r', lookup-insert key id r' m ∙ rw same refl, subst (λ x. Grown x r') (sym q_r) g)
    | inr other ↦ (q, lookup-insert key id r' m ∙ rw other h, Grown-refl q)
  ]

  -- What a step does is a well-named store that extends the one before.
  abbrev pub Goes : ℕ → Store Decimal → Store Decimal → Type 0
  Goes room s s' = Named room s' × Extends s s'

  -- A creation that passes the checks is the first for its certificate.
  creation_error-none :
      (c : Creation Decimal) (s : Store Decimal)
      → creation_error default_params c s ≡ none
      → lookup c.certificate_id s.cert_to_provenance ≡ none
  unfolding creation_error
  creation_error-none c s e =
      let docs = length c.documents in
      let p = default_params in
      first (lookup c.certificate_id s.cert_to_provenance) (
        named_types (refused_document p.accepted_document_types c.documents) (
          then_none (is_accepted_type p.accepted_energy_types c.energy_source.source_type)
            (energy_type_refused c.energy_source.source_type) _
            (else_none (ltb p.max_documents_per_record (uint32 docs))
              (too_many_documents docs p.max_documents_per_record) _
              (else_none (p.require_document_hash && (docs == 0)) document_required _ e))))
    where
      first :
          (o : Option String)
          → (elim o [ some _ ↦ some (record_exists c.certificate_id) | none ↦ none ]) ≡ none
          → o ≡ none
      first none h = refl
      first (some _) h = absurd (none-ne-some _ (sym h))

      named_types :
          (o : Option String) {y : Option Error}
          → (elim o [ some t ↦ some (document_type_refused t) | none ↦ y ]) ≡ none
          → y ≡ none
      named_types none h = h
      named_types (some t) h = absurd (none-ne-some _ (sym h))

  module _ (room : ℕ) (s : Store Decimal) (v : Named (suc room) s) where
    stays : Goes room s s
    stays =
        let w = v.within in
        (record { within = omega arith; fresh = v.fresh; named = v.named }, Extends-refl s)

    -- A record that is written back grown.
    rewritten :
        (key : String) (r r' : ProvenanceRecord Decimal)
        → lookup key s.records ≡ some r
        → r'.record_id ≡ key
        → Grown r r'
        → Goes room s (record s { records = insert key r' s.records })
    rewritten key r r' e name g =
        let w = v.within in
        (
          record {
            within = omega arith;
            fresh = Fresh-old "FTG-PROV-" 6 s.count s.records key r' r e v.fresh;
            named = insert-named s.records key r' v.named name;
          },
          record { grown = insert-Grown s.records key r r' e g; indexed = λ cert j h. h },
        )

    add_document_to_record-Goes :
        (id : String) (doc : DocumentHash) → Goes room s (add_document_to_record id doc s).0
    unfolding add_document_to_record set_provenance_record
    add_document_to_record-Goes id doc = elim (Option-cases (lookup id s.records)) [
      | inl missing ↦ rw (add_document_to_record, missing) stays
      | inr (r, e) ↦
          rw (add_document_to_record, e)
            (state_either (Goes room s)
              (ltb default_params.max_documents_per_record (uint32 (length r.document_hashes + 1)))
              _ _ stays
              (rewritten r.record_id r (with_document doc r)
                (ap (λ i. lookup i s.records) (v.named id r e) ∙ e) refl (Grown-document r doc)))
    ]

    record_custody_transfer-Goes :
        (id : String) (from to : Address) (reason tx : String) (now : Time)
        → Goes room s (record_custody_transfer id from to reason tx now s).0
    unfolding record_custody_transfer set_provenance_record
    record_custody_transfer-Goes id from to reason tx now =
        elim (Option-cases (lookup id s.records)) [
          | inl missing ↦ rw (record_custody_transfer, missing) stays
          | inr (r, e) ↦
              let event = custody_event from to reason tx now in
              rw (record_custody_transfer, e)
                (rewritten r.record_id r (with_event event r)
                  (ap (λ i. lookup i s.records) (v.named id r e) ∙ e) refl (Grown-event r event))
        ]

    created :
        (key cert : String) (r : ProvenanceRecord Decimal)
        → key ≡ sprintf "FTG-PROV-" 6 (add64 s.count 1)
        → r.record_id ≡ key
        → lookup cert s.cert_to_provenance ≡ none
        → Goes room s (record s {
          records = insert key r s.records;
          cert_to_provenance = insert cert key s.cert_to_provenance;
          count = add64 s.count 1;
        })
    created key cert r made name unknown =
        let w = v.within in
        let next : add64 s.count 1 ≡ s.count + 1 = add64_nat s.count 1 (omega arith) in
        let free : lookup key s.records ≡ none =
          ap (λ i. lookup i s.records) made
          ∙ v.fresh (add64 s.count 1) (omega arith) (omega arith) in
        (
          record {
            within = omega arith;
            fresh =
                subst (λ i. Fresh "FTG-PROV-" 6 (add64 s.count 1) (insert i r s.records)) (sym made)
                  (Fresh-new "FTG-PROV-" 6 s.count s.records r (omega arith) v.fresh);
            named = insert-named s.records key r v.named name;
          },
          record {
            grown = λ id q h.
                (q, lookup-insert_ne key id r s.records (other key id free h) ∙ h, Grown-refl q);
            indexed = λ c id h.
                lookup-insert_ne cert c key s.cert_to_provenance (other_cert cert c unknown h) ∙ h;
          },
        )
      where
        other :
            (i j : String) {q : ProvenanceRecord Decimal}
            → lookup i s.records ≡ none
            → lookup j s.records ≡ some q
            → i ≢ j
        other i j n h e = none-ne-some _ (sym n ∙ ap (λ x. lookup x s.records) e ∙ h)

        other_cert :
            (i j : String) {q : String}
            → lookup i s.cert_to_provenance ≡ none
            → lookup j s.cert_to_provenance ≡ some q
            → i ≢ j
        other_cert i j n h e =
            none-ne-some _ (sym n ∙ ap (λ x. lookup x s.cert_to_provenance) e ∙ h)

    create_provenance_record-Goes :
        (c : Creation Decimal) (t u : Time) → Goes room s (create_provenance_record c t u s).0
    unfolding create_provenance_record set_cert_to_provenance set_provenance_record new_record
        record_id
    create_provenance_record-Goes c t u = elim (Option-cases (creation_error default_params c s)) [
      | inr (bad, e) ↦ rw (create_provenance_record, e) stays
      | inl e ↦
          let w = v.within in
          let next : add64 s.count 1 ≡ s.count + 1 = add64_nat s.count 1 (omega arith) in
          rw (create_provenance_record, e)
            (created (record_id (add64 s.count 1)) c.certificate_id
              (new_record c (add64 s.count 1) t u)
              (sprintf_unsigned-sprintf "FTG-PROV-" 6 (add64 s.count 1) (omega arith)) refl
              (creation_error-none c s e))
    ]

    pub step-Goes : (c : Call Decimal) → Goes room s (step c s)
    unfolding step
    step-Goes (creates c t u) = create_provenance_record-Goes c t u
    step-Goes (documents id doc) = add_document_to_record-Goes id doc
    step-Goes (transfers id from to reason tx now) =
        record_custody_transfer-Goes id from to reason tx now
