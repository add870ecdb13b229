-- ===== src/Exchange/History.antt =====
-- Histories of the exchange keeper: any sequence of calls, each with its readings of the clock, from
-- any callers. `none` is a nil dereference, which stops the process. A call leaves the state that it
-- has written, also where it returns an error.
mod Tests
pub mod Faultless
pub mod Retired
pub mod Still
pub mod Frozen
use ftg_chain.Base.{ℕ, Option, none, some, List, [], ◌∷◌, String}
use ftg_chain.Base.Time.{Time}
use ftg_chain.Exchange.Types.{Keeper, KycApplication}
use ftg_chain.Exchange.Wallets.{create_wallet, deposit_to_wallet, withdraw_from_wallet}
use ftg_chain.Exchange.Orders.{Request, place_order, cancel_order}
use ftg_chain.Exchange.Kyc.{submit_kyc, approve_kyc, reject_kyc}

pub data Call : Type 0 where
  creates_wallet : String → String → Time → Call
  deposits : String → String → ℕ → Call
  withdraws : String → String → ℕ → Call
  places : Request → Time → String → Call
  cancels : String → String → Time → Call
  submits : KycApplication → Time → Call
  approves : String → Time → Call
  rejects : String → String → Time → Call

-- The state that a call leaves, without what it returns.
unfoldable pub state_of : {A : Type 0} → Option (Keeper × A) → Option Keeper
state_of none = none
state_of (some x) = some x.0

unfoldable pub step : Call → Keeper → Option Keeper
unfolding state_of
step (creates_wallet u l t) k = some (create_wallet u l t k).0
step (deposits id d n) k = some (deposit_to_wallet id d n k).0
step (withdraws id d n) k = some (withdraw_from_wallet id d n k).0
step (places r now today) k = state_of (place_order r now today k)
step (cancels id w now) k = state_of (cancel_order id w now k)
step (submits app now) k = some (submit_kyc app now k).0
step (approves id now) k = state_of (approve_kyc id now k)
step (rejects id reason now) k = some (reject_kyc id reason now k).0

unfoldable pub run : List Call → Keeper → Option Keeper
unfolding step
run [] k = some k
run (c ∷ cs) k = elim (step c k) [ none ↦ none | some k' ↦ run cs k' ]
