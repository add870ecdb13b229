-- ===== src/Provenance.antt =====
-- x/provenance: the registry of records that link a minted certificate to its energy source, from
-- types/types.go and keeper/keeper.go.
pub mod Types
pub mod Records
pub mod History
