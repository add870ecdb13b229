-- ===== src/Exchange.antt =====
-- x/exchange: wallets, the order book with its matching, and the KYC applications of an exchange.
-- The data of types/types.go and the state of keeper/keeper.go are in `Types`; the operations
-- stand in the other modules, each with its proofs below it.
mod Sample
mod Tests
pub mod Types
pub mod Wallets
pub mod Limits
pub mod Matching
pub mod Orders
pub mod Kyc
pub mod Market
pub mod History
