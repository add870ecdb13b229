-- ===== src/Node/Trading/Queries.antt =====
-- The handlers of cmd/ftgd/rpc_exchange.go that read: each takes the query of the request. `none` is
-- a panic.
use ftg_chain.Base.{ℕ, Bool, true, Option, none, some, List, String, str_eq, if◌then◌else◌}
use ftg_chain.Base.Dict.{Dict}
use ftg_chain.Base.Lists.{length}
use ftg_chain.Base.Time.{Time}
use ftg_chain.Node.Http.{Response, bad_request, success, query_get, number_or, answered}
use ftg_chain.Compliance.Types.{SuspiciousActivity}
use ftg_chain.Compliance.Flags as Flags
use ftg_chain.Compliance.Flags.{ComplianceStats, get_compliance_stats, get_pending_flags}
use ftg_chain.Compliance.Screening.{is_jurisdiction_blocked}
use ftg_chain.Exchange.Types.{ExchangeWallet, Order, Trade, Error}
use ftg_chain.Exchange.Wallets.{get_wallet, get_wallet_by_user}
use ftg_chain.Exchange.Market.{
  ExchangeStats, OrderBookSnapshot, get_order_book, get_recent_trades, get_user_orders,
  get_exchange_stats,
}
use ftg_chain.Node.Trading.{ExchangeRpc}

unfoldable pub handle_get_wallet : Dict String → ExchangeRpc → Response Error ExchangeWallet
unfolding query_get
handle_get_wallet query s =
    let wallet_id = query_get "wallet_id" query in
    let user_id = query_get "user_id" query in
    if str_eq wallet_id ""
    then (if str_eq user_id ""
        then bad_request "wallet_id or user_id required"
        else answered (get_wallet_by_user user_id s.exchange))
    else answered (get_wallet wallet_id s.exchange)

unfoldable pub handle_list_orders : Dict String → ExchangeRpc → Response Error (List Order × ℕ)
unfolding query_get
handle_list_orders query s =
    let wallet_id = query_get "wallet_id" query in
    let active_only = str_eq (query_get "active_only" query) "true" in
    if str_eq wallet_id ""
    then bad_request "wallet_id required"
    else (let orders = get_user_orders wallet_id active_only s.exchange in
        success (orders, length orders))

-- The pair of the query, FTG-USDC if it names none.
unfoldable pub pair_or_default : Dict String → String
unfolding query_get
pair_or_default query =
    let pair_id = query_get "pair_id" query in if str_eq pair_id "" then "FTG-USDC" else pair_id

unfoldable pub handle_order_book :
    Dict String → Time → ExchangeRpc → Option (Response Error OrderBookSnapshot)
unfolding pair_or_default number_or query_get
handle_order_book query now s =
    elim (get_order_book (pair_or_default query) (number_or 20 (query_get "depth" query)) now
      s.exchange) [ none ↦ none | some book ↦ some (success book) ]

unfoldable pub handle_recent_trades : Dict String → ExchangeRpc → Response Error (List Trade × ℕ)
unfolding pair_or_default number_or query_get
handle_recent_trades query s =
    let trades =
      get_recent_trades (pair_or_default query) (number_or 50 (query_get "limit" query))
        s.exchange in
    success (trades, length trades)

-- The one pair that handlePairs shows, whatever pairs the keeper has.
pub record PairAnswer : Type 0 where
  pub id : String
  pub base_symbol : String
  pub quote_symbol : String
  pub base_denom : String
  pub quote_denom : String
  pub min_order_size : ℕ
  pub maker_fee_bps : ℕ
  pub taker_fee_bps : ℕ
  pub active : Bool
  pub price_anchor : String

unfoldable pub handle_pairs : Time → ExchangeRpc → Response Error (PairAnswer × Bool)
handle_pairs now s = success (
  record {
    id = "FTG-USDC";
    base_symbol = "FTG";
    quote_symbol = "USDC";
    base_denom = "uftg";
    quote_denom = "uusdc";
    min_order_size = 1000000;
    maker_fee_bps = 10;
    taker_fee_bps = 25;
    active = true;
    price_anchor = "$5.00";
  },
  (get_exchange_stats now s.exchange).trading_enabled,
)

unfoldable pub handle_exchange_stats : Time → ExchangeRpc → Response Error ExchangeStats
handle_exchange_stats now s = success (get_exchange_stats now s.exchange)

unfoldable pub handle_compliance_stats : ExchangeRpc → Response Flags.Error ComplianceStats
handle_compliance_stats s = success (get_compliance_stats s.kyc)

unfoldable pub handle_compliance_flags :
    ExchangeRpc → Response Flags.Error (List SuspiciousActivity × ℕ)
handle_compliance_flags s = let flags = get_pending_flags s.kyc in success (flags, length flags)

pub record JurisdictionAnswer : Type 0 where
  pub country_code : String
  pub blocked : Bool
  pub reason : String

unfoldable pub handle_check_jurisdiction :
    Dict String → ExchangeRpc → Response Flags.Error JurisdictionAnswer
unfolding query_get
handle_check_jurisdiction query s =
    let country = query_get "country" query in
    if str_eq country ""
    then bad_request "country query parameter required (ISO 3166-1 alpha-2)"
    else (let verdict = is_jurisdiction_blocked country s.kyc in
        success (record { country_code = country; blocked = verdict.0; reason = verdict.1 }))
