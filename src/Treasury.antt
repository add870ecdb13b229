-- ===== src/Treasury.antt =====
-- x/treasury: the three wallets of the owner, and the commitments to buyers.
pub mod Types
pub mod Wallets
pub mod Backed
pub mod Steps
pub mod Delivered
mod Tests
