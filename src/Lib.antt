-- ===== src/Lib.antt =====
-- The node of the FTG chain: the chain state (cmd/ftgd/chain_state.go), which counts the tokens that
-- energy certificates back; the settlement keeper (x/settlement), the exchange keeper (x/exchange)
-- and the compliance keeper (x/kyc), which hold customers' money and their compliance state; and the
-- HTTP handlers (cmd/ftgd) that check requests and call them. The keepers do not call each other;
-- the handler of a KYC submission calls two of them. Each has one state, guarded by one mutex, and
-- every call runs under it from beginning to end, so that a history of a keeper is a list of calls.
--
-- Base: what the models share. Word has the int64 arithmetic of Go, Sprintf the identifiers that
-- fmt.Sprintf makes from a prefix and a counter, Dict the maps, Fresh the identifiers that a counter
-- has not reached, Lists and Sorting the slices and sort.Slice, Time the clock values, Result the
-- calls that may fail.
--
-- Settlement: x/settlement/types/types.go and x/settlement/keeper/keeper.go. Types has the data and
-- the state; Deposits, Withdrawals and Escrows the operations (create_deposit_intent is
-- CreateDepositIntent, and so on); Recent the list of the latest settlements; History the sequences
-- of calls, with a child module for each thing that is proved of them.
--
-- Exchange: x/exchange/types/types.go, x/exchange/types/errors.go and x/exchange/keeper/keeper.go.
-- Types has the data and the state; Wallets the wallets; Limits checkDailyLimit and
-- updateDailyLimit; Matching matchOrder (the loop is match_from) and settleTrade; Orders PlaceOrder,
-- CancelOrder and removeFromBook; Kyc SubmitKYC, ApproveKYC, RejectKYC and runAMLChecks; Market the
-- queries and rebuildOrderBooks; History the sequences of calls, with Faultless on the states that they
-- reach, Retired on what follows on a cancellation, and Still and Frozen on the wallets.
--
-- Compliance: x/kyc/types/types.go and x/kyc/keeper/keeper.go. Screening has ScreenUser and
-- IsJurisdictionBlocked, Flags CheckTransaction, ResolveFlag and the statistics.
--
-- Node: cmd/ftgd. ChainState has the operations of chain_state.go, with a module for each thing that
-- is proved of their histories; Http what the handlers share; Server the handlers of rpc_server.go,
-- Bridge those of rpc_settlement.go and Trading those of rpc_exchange.go, each with the module Served
-- on sequences of requests, in Trading those that only read included: every request is one call of a
-- keeper, or none, but for the submission of a KYC application, which calls two.
--
-- Provenance: x/provenance. Types has the data and the store, Records the operations of the keeper and
-- the queries, History the sequences of calls. Treasury: x/treasury. Types has the data, Wallets the
-- operations, Delivered the states that they reach. Burn: x/burn. Burns has the operations, Messages
-- the message server and the query, History the sequences of calls and Served those of messages.
-- EnergyMint: x/energymint, in the same way, with Minting for the operations. Sdk: the bank keeper, the
-- numbers of cosmossdk.io/math and the reading of texts as parameters, some with laws, and in Simple
-- an instance. The node does not call these modules. A panic in them ends the transaction, which
-- takes back what it wrote; an error does so in the SDK, and leaves here what the keeper has written.
--
-- How the code is read. An int64 (and an int) is its bit pattern, a natural number below 2 ^ 64, and
-- arithmetic wraps; the comparisons are the signed ones. A map is a list of keys and values, each key
-- once, in the order of the first writes; where Go walks a map in no fixed order the model takes
-- that one. Wallets, orders, escrows and the like are shared through pointers in the code: the map
-- by identifier stands for the store, a book holds identifiers, and a write through a pointer is a
-- write to the map. A call that would dereference nil returns `none`. The readings of the clock are
-- arguments (one for all readings of a call where the code only stores them). sort.Slice is an
-- insertion sort that keeps the order of equals, which Go does not promise.
--
-- Bounds. The loops are structural recursions over the lists that the code walks, so no fuel is
-- needed. Counters are int64; a history of fewer than 2 ^ 63 calls does not wrap them, which the
-- theorems on histories assume. The counters of x/provenance, x/treasury, x/burn and x/energymint are
-- uint64.
--
-- Not modelled: the JSON files in which the keepers save their state, the mutexes and the log; the
-- answers of fixed text; the command line, the keys and the block loop (cmd/ftgd, app); ValidateBasic
-- and the events of the SDK modules. Floating point is a parameter: `float64(x) / 1_000_000` is an
-- argument of the definitions that show it. Of net/http and encoding/json a handler sees the method,
-- the query and the outcome of decoding the body.
pub mod Base
pub mod Settlement
pub mod Exchange
pub mod Compliance
pub mod Node
pub mod Provenance
pub mod Sdk
pub mod Treasury
pub mod Burn
pub mod EnergyMint
