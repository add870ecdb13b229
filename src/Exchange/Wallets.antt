-- ===== src/Exchange/Wallets.antt =====
-- The wallets of x/exchange/keeper/keeper.go: CreateWallet, GetWallet, GetWalletByUser,
-- DepositToWallet and WithdrawFromWallet, and the four ways in which a wallet's amounts change.
pub mod Totals
use Prim.Native.String.{◌++◌ as ◌<>◌}
use ftg_chain.Base.{
  ℕ, Bool, true, false, ◌&&◌, ◌||◌, none, some, [], ◌∷◌, String, str_eq, if◌then◌else◌,
}
use ftg_chain.Base.Word.{add64, sub64, slt}
use ftg_chain.Base.Dict.{Dict, lookup, insert, amount_of}
use ftg_chain.Base.Sprintf.{sprintf}
use ftg_chain.Base.Time.{Time}
use ftg_chain.Base.Result.{Result, ok, err}
use ftg_chain.Exchange.Types.{
  Keeper, ExchangeWallet, Error, wallet_not_found, wallet_exists, wallet_inactive,
  insufficient_balance, registration_closed, kyc_tier_none,
}

-- wallet.Balances[denom] += amount
unfoldable pub credit : String → ℕ → ExchangeWallet → ExchangeWallet
credit denom amount w = record w {
  balances = insert denom (add64 (amount_of denom w.balances) amount) w.balances;
}

-- wallet.Balances[denom] -= amount
unfoldable pub debit : String → ℕ → ExchangeWallet → ExchangeWallet
debit denom amount w = record w {
  balances = insert denom (sub64 (amount_of denom w.balances) amount) w.balances;
}

-- wallet.Locked[denom] += amount
unfoldable pub lock : String → ℕ → ExchangeWallet → ExchangeWallet
lock denom amount w = record w {
  locked = insert denom (add64 (amount_of denom w.locked) amount) w.locked;
}

-- wallet.Locked[denom] -= amount
unfoldable pub unlock : String → ℕ → ExchangeWallet → ExchangeWallet
unlock denom amount w = record w {
  locked = insert denom (sub64 (amount_of denom w.locked) amount) w.locked;
}

-- available := wallet.Balances[denom] - wallet.Locked[denom]
unfoldable pub available : String → ExchangeWallet → ℕ
unfolding sub64 amount_of
available denom w = sub64 (amount_of denom w.balances) (amount_of denom w.locked)

unfoldable pub wallet_id : ℕ → String
unfolding sprintf
wallet_id = sprintf "FTG-W-" 6

-- Some wallet of the user is active.
unfoldable pub has_active_wallet : String → Dict ExchangeWallet → Bool
has_active_wallet user_id [] = false
has_active_wallet user_id ((id, w) ∷ m) =
    (str_eq w.user_id user_id && w.active) || has_active_wallet user_id m

unfoldable pub new_wallet : ℕ → String → String → Time → ExchangeWallet
new_wallet seq user_id label created_at = record {
  id = wallet_id seq;
  user_id = user_id;
  address = "ftg1exchange" <> wallet_id seq;
  label = label;
  created_at = created_at;
  kyc_tier = kyc_tier_none;
  balances = [];
  locked = [];
  active = true;
}

unfoldable pub create_wallet :
    String → String → Time → Keeper → Keeper × Result Error ExchangeWallet
create_wallet user_id label created_at k =
    if k.config.registration_open
    then (if has_active_wallet user_id k.wallets
        then (k, err wallet_exists)
        else (let wallet = new_wallet (add64 k.wallet_seq 1) user_id label created_at in
            (
              record k {
                wallet_seq = add64 k.wallet_seq 1;
                wallets = insert (wallet_id (add64 k.wallet_seq 1)) wallet k.wallets;
              },
              ok wallet,
            )))
    else (k, err registration_closed)

unfoldable pub get_wallet : String → Keeper → Result Error ExchangeWallet
get_wallet id k = elim (lookup id k.wallets) [ none ↦ err wallet_not_found | some w ↦ ok w ]

-- GetWalletByUser: an active wallet of the user, the first in the model: Go walks a map in no fixed
-- order.
unfoldable pub find_by_user : String → Dict ExchangeWallet → Result Error ExchangeWallet
find_by_user user_id [] = err wallet_not_found
find_by_user user_id ((id, w) ∷ m) =
    if str_eq w.user_id user_id && w.active then ok w else find_by_user user_id m

unfoldable pub get_wallet_by_user : String → Keeper → Result Error ExchangeWallet
unfolding find_by_user
get_wallet_by_user user_id k = find_by_user user_id k.wallets

unfoldable pub deposit_to_wallet : String → String → ℕ → Keeper → Keeper × Result Error (Unit {0})
deposit_to_wallet id denom amount k = elim (lookup id k.wallets) [
  | none ↦ (k, err wallet_not_found)
  | some w ↦
      if w.active
      then (record k { wallets = insert id (credit denom amount w) k.wallets }, ok tt)
      else (k, err wallet_inactive)
]

unfoldable pub withdraw_from_wallet :
    String → String → ℕ → Keeper → Keeper × Result Error (Unit {0})
withdraw_from_wallet id denom amount k = elim (lookup id k.wallets) [
  | none ↦ (k, err wallet_not_found)
  | some w ↦
      if w.active
      then (if slt (available denom w) amount
          then (k, err insufficient_balance)
          else (record k { wallets = insert id (debit denom amount w) k.wallets }, ok tt))
      else (k, err wallet_inactive)
]
