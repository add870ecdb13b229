-- ===== src/Settlement.antt =====
-- x/settlement: deposits, withdrawals and escrows in USDC. The data of types/types.go
-- and the state of keeper/keeper.go are in `Types`; the operations stand in the other modules, and
-- the sequences of calls in `History`.
pub mod Types
pub mod Deposits
pub mod Withdrawals
pub mod Escrows
pub mod Recent
pub mod Stats
pub mod History
