-- ===== src/Burn/Burns.antt =====
-- The operations of x/burn/keeper/keeper.go, over the bank keeper and the numbers of cosmossdk.io/math.
-- The reading of the clock is an argument; the amounts that are passed are not nil.
use ftg_chain.Base.{
  ℕ, ◌&&◌, ◌||◌, not, Bool, true, false, Option, none, some, String, str_eq, if◌then◌else◌,
}
use ftg_chain.Base.Word.{add64}
use ftg_chain.Base.Dict.{lookup, insert}
use ftg_chain.Base.Sprintf.{sprintf_unsigned}
use ftg_chain.Base.Time.{Time}
use ftg_chain.Base.Result.{Result, ok, err}
use ftg_chain.Sdk.Numbers.{Numbers}
use ftg_chain.Sdk.Supply.{Supply}
use ftg_chain.Burn.Types.{
  MerchantBurnData, BurnEvent, BurnStats, Store, Error, invalid_source, not_authorized,
  protocol_disabled, send_failed, burn_failed, overflowed, below_minimum, insufficient_balance,
  default_params,
}

unfoldable pub burn_id : ℕ → String
unfolding sprintf_unsigned
burn_id = sprintf_unsigned "FTG-BURN-" 6

-- What a caller of BurnTokens gives.
pub record Burn (Int Decimal : Type 0) : Type 0 where
  pub sender : String
  pub amount : Int
  pub source : String
  pub merchant_data : Option (MerchantBurnData Decimal)

abbrev pub is_source : String → Bool
is_source source =
    str_eq source "merchant_protocol" || (str_eq source "manual" || str_eq source "redemption")

module _ {S Int Decimal : Type 0} where
  -- IsAuthorizedMerchant
  unfoldable pub is_authorized_merchant : String → Store S Int Decimal → Bool
  is_authorized_merchant a k = elim (lookup a k.authorized_merchants) [
    | none ↦ false
    | some _ ↦ true
  ]

  -- AddAuthorizedMerchant
  unfoldable pub add_authorized_merchant : String → Store S Int Decimal → Store S Int Decimal
  add_authorized_merchant a k = record k {
    authorized_merchants = insert a tt k.authorized_merchants;
  }

  -- SetBurnEvent
  unfoldable pub set_burn_event : BurnEvent Int Decimal → Store S Int Decimal → Store S Int Decimal
  set_burn_event e k = record k { burn_events = insert e.burn_id e k.burn_events }

abbrev pub new_event :
    {Int Decimal : Type 0} → Burn Int Decimal → String → Time → BurnEvent Int Decimal
new_event req id now = record {
  burn_id = id;
  amount = req.amount;
  source = req.source;
  sender = req.sender;
  timestamp = now;
  tx_hash = "";
  merchant_data = req.merchant_data;
}

-- The burn of the merchant protocol.
abbrev pub merchant_request :
    {Int Decimal : Type 0} → String → Decimal → Decimal → Int → String → String → Burn Int Decimal
merchant_request contract revenue price tokens vault operator = record {
  sender = contract;
  amount = tokens;
  source = "merchant_protocol";
  merchant_data = some (record {
    energy_revenue_usd = revenue;
    dex_purchase_price = price;
    vault_id = vault;
    grid_operator = operator;
  });
}

module _ {Int Decimal : Type 0} (m : Numbers Int Decimal) where
  -- The energy revenue of a merchant's burn, where its data are given.
  unfoldable pub add_revenue :
      Option (MerchantBurnData Decimal) → BurnStats Int Decimal → Option (BurnStats Int Decimal)
  add_revenue none stats = some stats
  add_revenue (some merchant) stats =
      elim (m.dec_add stats.total_energy_revenue_usd merchant.energy_revenue_usd) [
        | none ↦ none
        | some usd ↦ some (record stats { total_energy_revenue_usd = usd })
      ]

  -- The switch of UpdateBurnStats.
  unfoldable pub add_by_source :
      Int
      → String
      → Option (MerchantBurnData Decimal)
      → BurnStats Int Decimal
      → Option (BurnStats Int Decimal)
  unfolding add_revenue
  add_by_source amount source merchant_data stats =
      if str_eq source "merchant_protocol"
      then elim (m.int_add stats.merchant_protocol_burned amount) [
        | none ↦ none
        | some burned ↦
            add_revenue merchant_data (record stats { merchant_protocol_burned = burned })
      ]
      else if str_eq source "manual"
      then elim (m.int_add stats.manual_burned amount) [
        | none ↦ none
        | some burned ↦ some (record stats { manual_burned = burned })
      ]
      else if str_eq source "redemption"
      then elim (m.int_add stats.redemption_burned amount) [
        | none ↦ none
        | some burned ↦ some (record stats { redemption_burned = burned })
      ]
      else some stats

  -- UpdateBurnStats, on the stored statistics.
  unfoldable pub update_burn_stats :
      Int
      → String
      → Option (MerchantBurnData Decimal)
      → BurnStats Int Decimal
      → Option (BurnStats Int Decimal)
  unfolding add_by_source
  update_burn_stats amount source merchant_data stats = elim (m.int_add stats.total_burned amount) [
    | none ↦ none
    | some total ↦
        add_by_source amount source merchant_data (record stats {
          total_burned = total;
          total_burn_events = add64 stats.total_burn_events 1;
        })
  ]

  -- The event and the statistics of coins that are burned.
  unfoldable pub burned :
      {S : Type 0}
      → Burn Int Decimal
      → Time
      → Store S Int Decimal
      → S
      → Store S Int Decimal × Result (Error Int) (BurnEvent Int Decimal)
  unfolding set_burn_event update_burn_stats burn_id
  burned req now k s =
      let e = new_event req (burn_id (add64 k.count 1)) now in
      elim (update_burn_stats req.amount req.source req.merchant_data k.stats) [
        | none ↦ (k, err overflowed)
        | some stats ↦
            (set_burn_event e (record k { bank = s; count = add64 k.count 1; stats = stats }), ok e)
      ]

  module _ {S : Type 0} (b : Supply S Int) where
    -- The checks of BurnTokens, in the order of the source.
    unfoldable pub burn_error : Burn Int Decimal → Store S Int Decimal → Option (Error Int)
    unfolding is_authorized_merchant
    burn_error req k =
        let params = default_params m in
        let balance = b.get_balance k.bank req.sender "uftg" in
        if is_source req.source
        then if str_eq req.source "merchant_protocol" && not (is_authorized_merchant req.sender k)
          then some (not_authorized req.sender)
          else if str_eq req.source "merchant_protocol" && not params.merchant_protocol_enabled
          then some protocol_disabled
          else if m.int_lt req.amount params.min_burn_amount
          then some (below_minimum req.amount params.min_burn_amount)
          else if m.int_lt balance req.amount
          then some (insufficient_balance balance req.amount)
          else none
        else some (invalid_source req.source)

    -- BurnTokens. Coins that are not burned stay with the module.
    unfoldable pub burn_tokens :
        Burn Int Decimal
        → Time
        → Store S Int Decimal
        → Store S Int Decimal × Result (Error Int) (BurnEvent Int Decimal)
    unfolding burn_error burned
    burn_tokens req now k = elim (burn_error req k) [
      | some e ↦ (k, err e)
      | none ↦ elim (b.send_to_module req.sender "ftgburn" "uftg" req.amount k.bank) [
        | none ↦ (k, err send_failed)
        | some held ↦ elim (b.burn_coins "ftgburn" "uftg" req.amount held) [
          | none ↦ (record k { bank = held }, err burn_failed)
          | some s ↦ burned req now k s
        ]
      ]
    ]

    -- MerchantProtocolBurn
    unfoldable pub merchant_protocol_burn :
        String
        → Decimal
        → Decimal
        → Int
        → String
        → String
        → Time
        → Store S Int Decimal
        → Store S Int Decimal × Result (Error Int) (BurnEvent Int Decimal)
    unfolding burn_tokens
    merchant_protocol_burn contract revenue price tokens vault operator now k =
        burn_tokens (merchant_request contract revenue price tokens vault operator) now k
