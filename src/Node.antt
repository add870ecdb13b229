-- ===== src/Node.antt =====
-- The running node of cmd/ftgd: the chain state, and the HTTP servers over it, over the exchange and
-- compliance keepers and over the settlement keeper.
pub mod ChainState
pub mod Http
pub mod Server
pub mod Bridge
pub mod Trading
