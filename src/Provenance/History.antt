-- ===== src/Provenance/History.antt =====
-- Histories of the provenance registry: any sequence of calls.
pub mod Grown
pub mod Kept
pub mod Audit
mod Tests
use ftg_chain.Base.{List, [], ◌∷◌, String}
use ftg_chain.Base.Time.{Time}
use ftg_chain.Provenance.Types.{Address, DocumentHash, Store}
use ftg_chain.Provenance.Records.{
  Creation, create_provenance_record, add_document_to_record, record_custody_transfer,
}

pub data Call (Decimal : Type 0) : Type 0 where
  creates : Creation Decimal → Time → Time → Call Decimal
  documents : String → DocumentHash → Call Decimal
  transfers : String → Address → Address → String → String → Time → Call Decimal

module _ {Decimal : Type 0} where
  unfoldable pub step : Call Decimal → Store Decimal → Store Decimal
  step (creates c t u) s = (create_provenance_record c t u s).0
  step (documents id doc) s = (add_document_to_record id doc s).0
  step (transfers id from to reason tx now) s =
      (record_custody_transfer id from to reason tx now s).0

  unfoldable pub run : List (Call Decimal) → Store Decimal → Store Decimal
  unfolding step
  run [] s = s
  run (c ∷ cs) s = run cs (step c s)
