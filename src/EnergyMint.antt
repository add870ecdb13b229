-- ===== src/EnergyMint.antt =====
-- x/energymint: tokens that are minted against renewable energy certificates.
pub mod Types
pub mod Minting
pub mod History
pub mod Messages
pub mod Served
mod Tests
