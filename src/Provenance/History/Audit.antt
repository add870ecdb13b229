-- ===== src/Provenance/History/Audit.antt =====
-- What any history of calls of x/provenance keeps of a record.
use native.Mathlib.Nat.{zero-add, suc-add}
use mathlib.Core.Option.{none-ne-some}
use ftg_chain.Base.{
  ℕ, ◌+◌, ◌<◌, ◌≡◌, refl, inl, inr, some, Option-cases, List, [], ◌∷◌, String, arith,
}
use ftg_chain.Base.Word.{half}
use ftg_chain.Base.Dict.{lookup}
use ftg_chain.Base.Lists.{length}
use ftg_chain.Provenance.Types.{ProvenanceRecord, Store, new_store}
use ftg_chain.Provenance.Records.{get_provenance_record, get_provenance_by_certificate}
use ftg_chain.Provenance.History.{Call, step, run}
use ftg_chain.Provenance.History.Grown.{Grown}
use ftg_chain.Provenance.History.Kept.{Named, Extends, Extends-refl, Extends-trans, Goes, step-Goes}

module _ {Decimal : Type 0} where
  run-Goes :
      (cs : List (Call Decimal)) (room : ℕ) (s : Store Decimal)
      → Named (length cs + room) s
      → Goes room s (run cs s)
  unfolding run
  run-Goes [] room s v = (rw (zero-add room) at v, Extends-refl s)
  run-Goes (c ∷ cs) room s v =
      let (v', e) = step-Goes (length cs + room) s (rw (suc-add (length cs) room) at v) c in
      let (v'', e') = run-Goes cs room (step c s) v' in
      (v'', Extends-trans s (step c s) (run cs (step c s)) e e')

  new_store-Named : (room : ℕ) → room < half → Named {Decimal = Decimal} room new_store
  unfolding lookup
  new_store-Named room h = record {
    within = omega arith;
    fresh = λ n hn above. refl;
    named = λ id r e. absurd (none-ne-some _ e);
  }

  get-Extends :
      (s s' : Store Decimal) (cert : String) (r : ProvenanceRecord Decimal)
      → Extends s s'
      → get_provenance_by_certificate cert s ≡ some r
      → (r' : ProvenanceRecord Decimal) × (get_provenance_by_certificate cert s' ≡ some r')
        × Grown r r'
  unfolding get_provenance_by_certificate get_provenance_record
  get-Extends s s' cert r x e = elim (Option-cases (lookup cert s.cert_to_provenance)) [
    | inl unknown ↦ absurd (none-ne-some r (rw (get_provenance_by_certificate, unknown) at e))
    | inr (id, known) ↦
        let (r', found, g) = x.grown id r (rw (get_provenance_by_certificate, known) at e) in
        (r', rw (get_provenance_by_certificate, x.indexed cert id known) found, g)
  ]

  -- From an empty registry, and while there are fewer than 2 ^ 63 calls: a record that is found for a
  -- certificate after some calls is found for it after any further calls, with its identifier,
  -- certificate, batch, source, time and creator as they were, and with documents and custody events
  -- only added behind those that it had.
  pub get_provenance_by_certificate-Grown :
      (cs later : List (Call Decimal)) (cert : String) (r : ProvenanceRecord Decimal)
      → length cs + length later < half
      → get_provenance_by_certificate cert (run cs new_store) ≡ some r
      → (r' : ProvenanceRecord Decimal) × (get_provenance_by_certificate cert
            (run later (run cs new_store))
          ≡ some r')
        × Grown r r'
  get_provenance_by_certificate-Grown cs later cert r h e =
      let before = run-Goes cs (length later + 0) new_store (new_store-Named _ (omega arith)) in
      let after = run-Goes later 0 (run cs new_store) before.0 in
      get-Extends (run cs new_store) (run later (run cs new_store)) cert r after.1 e
