-- ===== src/Treasury/Types.antt =====
-- x/treasury/types.go, and the store of x/treasury/keeper.go with the bank's state beside it. A
-- status is one of the texts that the code assigns or tests; `unset` is the empty one. A commitment
-- that is written as JSON is read back as it was. The counter, which is 0 before the first commitment,
-- has the key of a commitment called `count`; no commitment of that name is written.
use ftg_chain.Base.{ℕ, Bool, true, false, [], String}
use ftg_chain.Base.Dict.{Dict}

pub data CommitmentStatus : Type 0 where
  unset pending funded delivered cancelled : CommitmentStatus

pub record Commitment (Int Decimal : Type 0) : Type 0 where
  pub commitment_id : String
  pub buyer_reference : String
  pub amount : Int
  pub price_per_token : Decimal
  pub total_value_usd : Decimal
  pub status : CommitmentStatus
  pub created_at : ℕ
  pub delivered_at : ℕ
  pub destination_wallet : String

pub record TreasuryConfig : Type 0 where
  pub minting_wallet_address : String
  pub committed_wallet_address : String
  pub liquidity_wallet_address : String
  pub owner_address : String

pub record TransferToCommitted (Int Decimal : Type 0) : Type 0 where
  pub amount : Int
  pub buyer_reference : String
  pub price_per_token : Decimal

pub record TransferToLiquidity (Int : Type 0) : Type 0 where
  pub amount : Int

pub record DeliverCommitment : Type 0 where
  pub commitment_id : String
  pub destination_wallet : String

pub record CancelCommitment : Type 0 where
  pub commitment_id : String
  pub reason : String

pub record Treasury (S Int Decimal : Type 0) : Type 0 where
  pub bank : S
  pub commitments : Dict (Commitment Int Decimal)
  pub count : ℕ

abbrev pub new_treasury : {S Int Decimal : Type 0} → S → Treasury S Int Decimal
new_treasury s = record { bank = s; commitments = []; count = 0 }

-- Why a call fails, with the values that the message shows. `transfer_failed` is the bank's error, or
-- a panic on a negative amount; `overflowed` is the panic of a product. A panic ends the
-- transaction, which takes back what it wrote.
pub data Error (Int : Type 0) : Type 0 where
  unauthorized transfer_failed overflowed : Error Int
  insufficient_minting : Int → Int → Error Int
  not_found : String → Error Int
  not_funded not_cancellable : String → CommitmentStatus → Error Int

abbrev pub is_funded : CommitmentStatus → Bool
is_funded funded = true
is_funded _ = false

abbrev pub is_cancellable : CommitmentStatus → Bool
is_cancellable funded = true
is_cancellable pending = true
is_cancellable _ = false
