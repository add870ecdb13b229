-- ===== src/Settlement/Deposits.antt =====
-- The deposit flow of x/settlement/keeper/keeper.go: CreateDepositIntent and ConfirmDeposit, with
-- the queries over deposits. A call takes each reading of the clock as an argument, in the order
-- of the readings.
use Prim.Native.String.{◌++◌ as ◌<>◌}
use ftg_chain.Base.{ℕ, none, some, List, String, if◌then◌else◌}
use ftg_chain.Base.Word.{add64, slt}
use ftg_chain.Base.Dict.{lookup, insert, values_where}
use ftg_chain.Base.Sprintf.{sprintf}
use ftg_chain.Base.Time.{Time, add_duration, hours, is_after}
use ftg_chain.Base.Result.{Result, ok, err}
use ftg_chain.Base.{str_eq}
use ftg_chain.Settlement.Types.{
  Keeper, PaymentMethod, noble_ibc, stablecoin, DepositIntent, DepositStatus, Error, below_minimum,
  method_disabled, deposit_not_found, deposit_already, deposit_has_expired, is_method_enabled,
}

unfoldable pub deposit_id : ℕ → String
unfolding sprintf
deposit_id = sprintf "DEP-" 6

-- Stablecoin and Noble deposits are paid to an address of their own.
unfoldable pub deposit_address : PaymentMethod → String → String
deposit_address stablecoin id = "ftg1deposit" <> id
deposit_address noble_ibc id = "ftg1deposit" <> id
deposit_address _ id = ""

unfoldable pub new_deposit_intent :
    Keeper → String → String → ℕ → PaymentMethod → Time → Time → DepositIntent
new_deposit_intent k wallet_id user_id amount method created_at expires_from =
    let name = deposit_id (add64 k.deposit_seq 1) in
    record {
      id = name;
      wallet_id = wallet_id;
      user_id = user_id;
      amount = amount;
      payment_method = method;
      status = DepositStatus.pending;
      payment_ref = "";
      deposit_address = deposit_address method name;
      created_at = created_at;
      confirmed_at = none;
      expires_at = add_duration expires_from (hours k.config.escrow_timeout_hours);
    }

unfoldable pub create_deposit_intent :
    String → String → ℕ → PaymentMethod → Time → Time → Keeper → Keeper × Result Error DepositIntent
create_deposit_intent wallet_id user_id amount method created_at expires_from k =
    if slt amount k.config.min_settlement_usdc
    then (k, err (below_minimum k.config.min_settlement_usdc))
    else if is_method_enabled k.config method
    then (let intent =
          new_deposit_intent k wallet_id user_id amount method created_at expires_from in
        (
          record k {
            deposit_seq = add64 k.deposit_seq 1;
            deposits = insert (deposit_id (add64 k.deposit_seq 1)) intent k.deposits;
          },
          ok intent,
        ))
    else (k, err (method_disabled method))

-- ConfirmDeposit, once the intent is found: it confirms a pending intent within its time, and
-- marks a late one as expired.
unfoldable pub confirm_intent :
    String
    → String
    → Time
    → Time
    → Keeper
    → DepositIntent
    → DepositStatus
    → Keeper × Result Error DepositIntent
confirm_intent id payment_ref checked_at now k intent DepositStatus.pending =
    if is_after checked_at intent.expires_at
    then (
      record k {
        deposits = insert id (record intent { status = DepositStatus.expired }) k.deposits;
      },
      err (deposit_has_expired id),
    )
    else (let paid = record intent {
      status = DepositStatus.confirmed;
      payment_ref = payment_ref;
      confirmed_at = some now;
    } in
        (
          record k {
            deposits = insert id paid k.deposits;
            total_deposited = add64 k.total_deposited intent.amount;
          },
          ok paid,
        ))
confirm_intent id payment_ref checked_at now k intent DepositStatus.confirmed =
    (k, err (deposit_already id DepositStatus.confirmed))
confirm_intent id payment_ref checked_at now k intent DepositStatus.expired =
    (k, err (deposit_already id DepositStatus.expired))

unfoldable pub confirm_deposit :
    String → String → Time → Time → Keeper → Keeper × Result Error DepositIntent
unfolding confirm_intent
confirm_deposit id payment_ref checked_at now k = elim (lookup id k.deposits) [
  | none ↦ (k, err (deposit_not_found id))
  | some intent ↦ confirm_intent id payment_ref checked_at now k intent intent.status
]

unfoldable pub get_deposit : String → Keeper → Result Error DepositIntent
get_deposit id k = elim (lookup id k.deposits) [
  | none ↦ err (deposit_not_found id)
  | some intent ↦ ok intent
]

unfoldable pub get_user_deposits : String → Keeper → List DepositIntent
get_user_deposits user_id k = values_where (λ d. str_eq d.user_id user_id) k.deposits
