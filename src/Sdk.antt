-- ===== src/Sdk.antt =====
-- The parts of the Cosmos SDK that the modules under x/ use and that are not in the repository:
-- numbers of cosmossdk.io/math, the bank keeper and the reading of texts. They are parameters, with
-- what their documentation says of them as laws where a theorem needs it. An address is the text of
-- its bytes.
pub mod Numbers
pub mod Bank
pub mod Supply
pub mod Texts
pub mod MintBank
pub mod Tally
pub mod Simple
