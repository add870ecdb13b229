-- ===== src/Burn/Messages.antt =====
-- x/burn/keeper/msg_server.go and query_server.go, with the messages of types/msgs.go and types/query.go.
use ftg_chain.Base.{ℕ, ◌≡◌, refl, none, some, String, str_eq, if◌then◌else◌}
use ftg_chain.Base.Time.{Time}
use ftg_chain.Base.Result.{Result, ok, err}
use ftg_chain.Sdk.Numbers.{Numbers}
use ftg_chain.Sdk.Supply.{Supply}
use ftg_chain.Sdk.Texts.{Texts}
use ftg_chain.Burn.Types.{BurnEvent, Store, Error}
use ftg_chain.Burn.Burns.{burn_tokens, merchant_protocol_burn, add_authorized_merchant}

pub record MsgBurnTokens : Type 0 where
  pub sender : String
  pub amount : String
  pub source : String

pub record MsgMerchantBurn : Type 0 where
  pub sender : String
  pub tokens_purchased : String
  pub energy_revenue_usd : String
  pub dex_purchase_price : String
  pub vault_id : String
  pub grid_operator : String

pub record MsgAddMerchant : Type 0 where
  pub authority : String
  pub merchant_address : String

-- MsgBurnTokensResponse and MsgMerchantBurnResponse
pub record MsgBurnResponse : Type 0 where
  pub burn_id : String
  pub amount_burned : String

-- Why a message fails: a text that is not read, a sender other than the authority, or the keeper.
pub data MsgError (Int : Type 0) : Type 0 where
  invalid_address invalid_amount invalid_tokens invalid_revenue invalid_price :
      String → MsgError Int
  not_authority : MsgError Int
  refused : Error Int → MsgError Int

pub data Message : Type 0 where
  burn_message : MsgBurnTokens → Message
  merchant_message : MsgMerchantBurn → Message
  add_message : MsgAddMerchant → Message

module _ {Int Decimal : Type 0} (texts : Texts Int Decimal) where
  unfoldable pub burn_response :
      {S : Type 0}
      → S × Result (Error Int) (BurnEvent Int Decimal)
      → S × Result (MsgError Int) MsgBurnResponse
  burn_response (k, ok e) =
      (k, ok (record { burn_id = e.burn_id; amount_burned = texts.show_int e.amount }))
  burn_response (k, err e) = (k, err (refused e))

  pub burn_response-state :
      {S : Type 0} (r : S × Result (Error Int) (BurnEvent Int Decimal)) → (burn_response r).0 ≡ r.0
  unfolding burn_response
  burn_response-state (k, ok e) = refl
  burn_response-state (k, err e) = refl

  module _ {S : Type 0} (m : Numbers Int Decimal) (b : Supply S Int) where
    -- BurnTokens
    unfoldable pub burn_requested :
        MsgBurnTokens
        → Time
        → Store S Int Decimal
        → Store S Int Decimal × Result (MsgError Int) MsgBurnResponse
    unfolding burn_response
    burn_requested msg now k = elim (texts.address_of msg.sender) [
      | none ↦ (k, err (invalid_address msg.sender))
      | some sender ↦ elim (texts.int_of msg.amount) [
        | none ↦ (k, err (invalid_amount msg.amount))
        | some amount ↦ burn_response (
            burn_tokens m b
              (record {
                sender = sender;
                amount = amount;
                source = msg.source;
                merchant_data = none;
              })
              now k)
      ]
    ]

    -- MerchantBurn
    unfoldable pub merchant_burn :
        MsgMerchantBurn
        → Time
        → Store S Int Decimal
        → Store S Int Decimal × Result (MsgError Int) MsgBurnResponse
    unfolding burn_response merchant_protocol_burn
    merchant_burn msg now k = elim (texts.address_of msg.sender) [
      | none ↦ (k, err (invalid_address msg.sender))
      | some sender ↦ elim (texts.int_of msg.tokens_purchased) [
        | none ↦ (k, err (invalid_tokens msg.tokens_purchased))
        | some tokens ↦ elim (texts.dec_of msg.energy_revenue_usd) [
          | none ↦ (k, err (invalid_revenue msg.energy_revenue_usd))
          | some revenue ↦ elim (texts.dec_of msg.dex_purchase_price) [
            | none ↦ (k, err (invalid_price msg.dex_purchase_price))
            | some price ↦ burn_response (
                merchant_protocol_burn m b sender revenue price tokens msg.vault_id
                  msg.grid_operator now k)
          ]
        ]
      ]
    ]

  module _ {S : Type 0} (authority : String) where
    -- AddMerchant
    unfoldable pub add_merchant :
        MsgAddMerchant
        → Store S Int Decimal
        → Store S Int Decimal × Result (MsgError Int) (Unit {0})
    add_merchant msg k =
        if str_eq msg.authority authority
        then elim (texts.address_of msg.merchant_address) [
          | none ↦ (k, err (invalid_address msg.merchant_address))
          | some merchant ↦ (add_authorized_merchant merchant k, ok tt)
        ]
        else (k, err not_authority)

  module _ {S : Type 0} (m : Numbers Int Decimal) (b : Supply S Int) (authority : String) where
    unfoldable pub serve : Message → Time → Store S Int Decimal → Store S Int Decimal
    serve (burn_message msg) now k = (burn_requested m b msg now k).0
    serve (merchant_message msg) now k = (merchant_burn m b msg now k).0
    serve (add_message msg) now k = (add_merchant authority msg k).0

-- QueryBurnStatsResponse
pub record BurnStatsResponse : Type 0 where
  pub total_burned : String
  pub total_burn_events : ℕ
  pub merchant_protocol_burned : String
  pub manual_burned : String
  pub redemption_burned : String
  pub total_energy_revenue_usd : String

-- The query BurnStats.
unfoldable pub query_burn_stats :
    {S Int Decimal : Type 0} → Texts Int Decimal → Store S Int Decimal → BurnStatsResponse
query_burn_stats texts k = record {
  total_burned = texts.show_int k.stats.total_burned;
  total_burn_events = k.stats.total_burn_events;
  merchant_protocol_burned = texts.show_int k.stats.merchant_protocol_burned;
  manual_burned = texts.show_int k.stats.manual_burned;
  redemption_burned = texts.show_int k.stats.redemption_burned;
  total_energy_revenue_usd = texts.show_dec k.stats.total_energy_revenue_usd;
}
