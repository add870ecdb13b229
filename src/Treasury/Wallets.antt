-- ===== src/Treasury/Wallets.antt =====
-- The operations of x/treasury/keeper.go, over the bank keeper and the numbers of cosmossdk.io/math. A
-- reading of the clock, in Unix seconds, is an argument; the amounts of requests are Ints that are not nil.
use ftg_chain.Base.{ℕ, ◌==◌, Option, none, some, String, str_eq, if◌then◌else◌}
use ftg_chain.Base.Word.{add64}
use ftg_chain.Base.Dict.{lookup, insert}
use ftg_chain.Base.Sprintf.{sprintf_unsigned}
use ftg_chain.Base.Result.{Result, ok, err}
use ftg_chain.Sdk.Numbers.{Numbers}
use ftg_chain.Sdk.Bank.{Bank}
use ftg_chain.Treasury.Types.{
  unset, funded, delivered, cancelled, Commitment, TreasuryConfig, TransferToCommitted,
  TransferToLiquidity, DeliverCommitment, CancelCommitment, Treasury, Error, unauthorized,
  transfer_failed, overflowed, insufficient_minting, not_found, not_funded, not_cancellable,
  is_funded, is_cancellable,
}

unfoldable pub commitment_id : ℕ → String
unfolding sprintf_unsigned
commitment_id = sprintf_unsigned "FTG-COMMIT-" 6

pub record TreasuryOverview (Int : Type 0) : Type 0 where
  pub minting_balance : Int
  pub committed_balance : Int
  pub liquidity_balance : Int
  pub minting_address : String
  pub committed_address : String
  pub liquidity_address : String

module _ {Int Decimal : Type 0} (m : Numbers Int Decimal) where
  -- Commitment{}
  abbrev pub empty_commitment : Commitment Int Decimal
  empty_commitment = record {
    commitment_id = "";
    buyer_reference = "";
    amount = m.nil_int;
    price_per_token = m.nil_dec;
    total_value_usd = m.nil_dec;
    status = unset;
    created_at = 0;
    delivered_at = 0;
    destination_wallet = "";
  }

  abbrev pub new_commitment :
      String → TransferToCommitted Int Decimal → Decimal → ℕ → Commitment Int Decimal
  new_commitment id req product now = record {
    commitment_id = id;
    buyer_reference = req.buyer_reference;
    amount = req.amount;
    price_per_token = req.price_per_token;
    total_value_usd = m.quo_int product (m.new_int 1000000);
    status = funded;
    created_at = now;
    delivered_at = 0;
    destination_wallet = "";
  }

abbrev pub delivered_to :
    {Int Decimal : Type 0} → String → ℕ → Commitment Int Decimal → Commitment Int Decimal
delivered_to destination now c = record c {
  status = delivered;
  delivered_at = now;
  destination_wallet = destination;
}

-- SetCommitment
unfoldable pub set_commitment :
    {S Int Decimal : Type 0}
    → Commitment Int Decimal
    → Treasury S Int Decimal
    → Treasury S Int Decimal
set_commitment c t = record t { commitments = insert c.commitment_id c t.commitments }

module _ {S Int Decimal : Type 0} (b : Bank S Int) (config : TreasuryConfig) where
  -- GetMintingBalance, GetCommittedBalance and GetLiquidityBalance
  abbrev pub get_minting_balance : Treasury S Int Decimal → Int
  get_minting_balance t = b.get_balance t.bank config.minting_wallet_address "uftg"

  abbrev pub get_committed_balance : Treasury S Int Decimal → Int
  get_committed_balance t = b.get_balance t.bank config.committed_wallet_address "uftg"

  abbrev pub get_liquidity_balance : Treasury S Int Decimal → Int
  get_liquidity_balance t = b.get_balance t.bank config.liquidity_wallet_address "uftg"

  -- A delivery of a commitment that was found.
  unfoldable pub deliver :
      DeliverCommitment
      → ℕ
      → Treasury S Int Decimal
      → Commitment Int Decimal
      → Treasury S Int Decimal × Result (Error Int) (Unit {0})
  unfolding set_commitment
  deliver req now t c =
      if is_funded c.status
      then elim (b.send_coins config.committed_wallet_address req.destination_wallet "uftg" c.amount
          t.bank) [
            | none ↦ (t, err transfer_failed)
            | some s ↦ (
              set_commitment (delivered_to req.destination_wallet now c) (record t { bank = s }),
              ok tt,
            )
          ]
      else (t, err (not_funded req.commitment_id c.status))

  -- The return of a commitment that was found.
  unfoldable pub cancel :
      CancelCommitment
      → Treasury S Int Decimal
      → Commitment Int Decimal
      → Treasury S Int Decimal × Result (Error Int) (Unit {0})
  unfolding set_commitment
  cancel req t c =
      if is_cancellable c.status
      then elim (b.send_coins config.committed_wallet_address config.minting_wallet_address "uftg"
          c.amount t.bank) [
            | none ↦ (t, err transfer_failed)
            | some s ↦
                (set_commitment (record c { status = cancelled }) (record t { bank = s }), ok tt)
          ]
      else (t, err (not_cancellable req.commitment_id c.status))

module _ {S Int Decimal : Type 0} where
  module _ (m : Numbers Int Decimal) where
    -- GetCommitment: eight bytes of the counter are no JSON of a commitment.
    unfoldable pub get_commitment :
        String → Treasury S Int Decimal → Option (Commitment Int Decimal)
    get_commitment id t =
        if str_eq id "count"
        then if t.count == 0 then none else some (empty_commitment m)
        else lookup id t.commitments

    -- A new commitment of a transfer that the bank has made.
    unfoldable pub commit :
        TransferToCommitted Int Decimal
        → ℕ
        → Treasury S Int Decimal
        → S
        → Treasury S Int Decimal × Result (Error Int) (Commitment Int Decimal)
    unfolding set_commitment commitment_id
    commit req now t s = elim (m.mul_int req.price_per_token req.amount) [
      | none ↦ (t, err overflowed)
      | some product ↦
          let count = add64 t.count 1 in
          let c = new_commitment m (commitment_id count) req product now in
          (set_commitment c (record t { bank = s; count = count }), ok c)
    ]

    module _ (b : Bank S Int) (config : TreasuryConfig) where
      -- TransferMintingToCommitted
      unfoldable pub transfer_minting_to_committed :
          String
          → TransferToCommitted Int Decimal
          → ℕ
          → Treasury S Int Decimal
          → Treasury S Int Decimal × Result (Error Int) (Commitment Int Decimal)
      unfolding commit
      transfer_minting_to_committed sender req now t =
          if str_eq sender config.owner_address
          then if m.int_lt (get_minting_balance b config t) req.amount
            then (t, err (insufficient_minting (get_minting_balance b config t) req.amount))
            else elim (b.send_coins config.minting_wallet_address config.committed_wallet_address
                "uftg" req.amount t.bank) [
                  | none ↦ (t, err transfer_failed)
                  | some s ↦ commit req now t s
                ]
          else (t, err unauthorized)

      -- TransferMintingToLiquidity
      unfoldable pub transfer_minting_to_liquidity :
          String
          → TransferToLiquidity Int
          → Treasury S Int Decimal
          → Treasury S Int Decimal × Result (Error Int) (Unit {0})
      transfer_minting_to_liquidity sender req t =
          if str_eq sender config.owner_address
          then if m.int_lt (get_minting_balance b config t) req.amount
            then (t, err (insufficient_minting (get_minting_balance b config t) req.amount))
            else elim (b.send_coins config.minting_wallet_address config.liquidity_wallet_address
                "uftg" req.amount t.bank) [
                  | none ↦ (t, err transfer_failed)
                  | some s ↦ (record t { bank = s }, ok tt)
                ]
          else (t, err unauthorized)

      -- DeliverCommitment
      unfoldable pub deliver_commitment :
          String
          → DeliverCommitment
          → ℕ
          → Treasury S Int Decimal
          → Treasury S Int Decimal × Result (Error Int) (Unit {0})
      unfolding get_commitment deliver
      deliver_commitment sender req now t =
          if str_eq sender config.owner_address
          then elim (get_commitment req.commitment_id t) [
            | none ↦ (t, err (not_found req.commitment_id))
            | some c ↦ deliver b config req now t c
          ]
          else (t, err unauthorized)

      -- CancelCommitmentOp
      unfoldable pub cancel_commitment_op :
          String
          → CancelCommitment
          → Treasury S Int Decimal
          → Treasury S Int Decimal × Result (Error Int) (Unit {0})
      unfolding get_commitment cancel
      cancel_commitment_op sender req t =
          if str_eq sender config.owner_address
          then elim (get_commitment req.commitment_id t) [
            | none ↦ (t, err (not_found req.commitment_id))
            | some c ↦ cancel b config req t c
          ]
          else (t, err unauthorized)

      -- GetTreasuryOverview, whose amounts the code shows as text.
      unfoldable pub get_treasury_overview : Treasury S Int Decimal → TreasuryOverview Int
      get_treasury_overview t = record {
        minting_balance = get_minting_balance b config t;
        committed_balance = get_committed_balance b config t;
        liquidity_balance = get_liquidity_balance b config t;
        minting_address = config.minting_wallet_address;
        committed_address = config.committed_wallet_address;
        liquidity_address = config.liquidity_wallet_address;
      }
