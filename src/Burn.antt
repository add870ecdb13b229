-- ===== src/Burn.antt =====
-- x/burn: the tokens that are burned, by whom and why, and the totals.
pub mod Types
pub mod Burns
pub mod Totals
pub mod History
pub mod Messages
pub mod Served
mod Tests
