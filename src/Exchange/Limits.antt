-- ===== src/Exchange/Limits.antt =====
-- The daily limits of x/exchange/keeper/keeper.go: checkDailyLimit and updateDailyLimit. The date
-- is that of `time.Now().UTC().Format("2006-01-02")`.
use Prim.Native.String.{◌++◌ as ◌<>◌}
use ftg_chain.Base.{ℕ, Option, none, some, String, ◌==◌, if◌then◌else◌}
use ftg_chain.Base.Word.{add64, mul64, div64, slt}
use ftg_chain.Base.Dict.{lookup, insert}
use ftg_chain.Exchange.Types.{
  Keeper, ExchangeWallet, DailyLimit, Error, insufficient_kyc, daily_limit_exceeded, kyc_tier_inst,
  tier_limit,
}

-- (price * quantity) / 1_000_000
unfoldable pub quote_value : ℕ → ℕ → ℕ
unfolding mul64 div64
quote_value price quantity = div64 (mul64 price quantity) 1000000

unfoldable pub limit_key : String → String → String
limit_key user_id today = user_id <> ("/" <> today)

-- The entry of the user and the day, a new one if there is none.
unfoldable pub daily_limit : String → String → Keeper → DailyLimit
unfolding limit_key
daily_limit user_id today k = elim (lookup (limit_key user_id today) k.daily_limits) [
  | none ↦ record {
    user_id = user_id;
    date = today;
    buy_volume = 0;
    sell_volume = 0;
    total_volume = 0;
  }
  | some d ↦ d
]

-- checkDailyLimit stores a new entry also where it refuses.
unfoldable pub check_daily_limit : ExchangeWallet → ℕ → ℕ → String → Keeper → Keeper × Option Error
unfolding daily_limit
check_daily_limit w price quantity today k =
    if w.kyc_tier == kyc_tier_inst
    then (k, none)
    else if tier_limit w.kyc_tier k.config.tier_limits == 0
    then (k, some insufficient_kyc)
    else (let d = daily_limit w.user_id today k in
        (
          record k { daily_limits = insert (limit_key w.user_id today) d k.daily_limits },
          if slt (tier_limit w.kyc_tier k.config.tier_limits)
                (add64 d.total_volume (quote_value price quantity))
              then some daily_limit_exceeded
              else none,
        ))

unfoldable pub update_daily_limit : String → ℕ → String → Keeper → Keeper
unfolding daily_limit
update_daily_limit user_id volume today k =
    let d = daily_limit user_id today k in
    record k {
      daily_limits =
          insert (limit_key user_id today) (record d { total_volume = add64 d.total_volume volume })
            k.daily_limits;
    }
