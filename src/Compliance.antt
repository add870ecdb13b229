-- ===== src/Compliance.antt =====
-- x/kyc: sanctions screening and the flags on large transactions. The data of types/types.go and the
-- state are in `Types`, the operations of keeper/keeper.go in the other modules.
mod Tests
pub mod Types
pub mod Screening
pub mod Flags
