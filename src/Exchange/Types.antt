-- ===== src/Exchange/Types.antt =====
-- x/exchange/types/types.go, errors.go and the state of x/exchange/keeper/keeper.go. Amounts,
-- prices and tiers are int64 words. Wallets and orders are shared through pointers: the map by
-- identifier is the store, and a book holds the identifiers of its orders.
use ftg_chain.Base.{ℕ, Bool, true, false, Option, List, [], ◌∷◌, String, ◌==◌, if◌then◌else◌}
use ftg_chain.Base.Dict.{Dict}
use ftg_chain.Base.Time.{Time}

pub data OrderSide : Type 0 where
  buy sell : OrderSide
  other_side : String → OrderSide

pub data OrderType : Type 0 where
  limit market : OrderType
  other_type : String → OrderType

-- `opened` is the source's "open".
pub data OrderStatus : Type 0 where
  opened partial filled cancelled expired : OrderStatus

pub data KycStatus : Type 0 where
  unset pending approved rejected : KycStatus

abbrev pub kyc_tier_none : ℕ
kyc_tier_none = 0

abbrev pub kyc_tier_basic : ℕ
kyc_tier_basic = 1

abbrev pub kyc_tier_full : ℕ
kyc_tier_full = 2

abbrev pub kyc_tier_inst : ℕ
kyc_tier_inst = 3

pub record TradingPair : Type 0 where
  pub id : String
  pub base_denom : String
  pub quote_denom : String
  pub base_symbol : String
  pub quote_symbol : String
  pub min_order_size : ℕ
  pub price_increment : ℕ
  pub size_increment : ℕ
  pub maker_fee : ℕ
  pub taker_fee : ℕ
  pub active : Bool

pub record ExchangeWallet : Type 0 where
  pub id : String
  pub user_id : String
  pub address : String
  pub label : String
  pub created_at : Time
  pub kyc_tier : ℕ
  pub balances : Dict ℕ
  pub locked : Dict ℕ
  pub active : Bool

pub record Order : Type 0 where
  pub id : String
  pub wallet_id : String
  pub user_id : String
  pub pair_id : String
  pub side : OrderSide
  pub order_type : OrderType
  pub price : ℕ
  pub quantity : ℕ
  pub filled_qty : ℕ
  pub remaining_qty : ℕ
  pub status : OrderStatus
  pub created_at : Time
  pub updated_at : Time
  pub expires_at : Option Time

pub record Trade : Type 0 where
  pub id : String
  pub pair_id : String
  pub maker_order : String
  pub taker_order : String
  pub maker_wallet : String
  pub taker_wallet : String
  pub side : OrderSide
  pub price : ℕ
  pub quantity : ℕ
  pub maker_fee : ℕ
  pub taker_fee : ℕ
  pub executed_at : Time
  pub block_height : ℕ

pub record KycApplication : Type 0 where
  pub id : String
  pub user_id : String
  pub wallet_id : String
  pub requested_tier : ℕ
  pub current_tier : ℕ
  pub status : KycStatus
  pub email : String
  pub phone : String
  pub country : String
  pub full_name : String
  pub date_of_birth : String
  pub id_type : String
  pub id_number : String
  pub id_document_hash : String
  pub proof_of_address : String
  pub company_name : String
  pub company_reg_no : String
  pub company_country : String
  pub aml_risk_score : ℕ
  pub pep_check : Bool
  pub sanctions_check : Bool
  pub submitted_at : Time
  pub reviewed_at : Option Time
  pub approved_at : Option Time
  pub rejected_reason : String

pub record DailyLimit : Type 0 where
  pub user_id : String
  pub date : String
  pub buy_volume : ℕ
  pub sell_volume : ℕ
  pub total_volume : ℕ

pub record ExchangeConfig : Type 0 where
  pub fee_collector : String
  pub trading_enabled : Bool
  pub registration_open : Bool
  pub aml_threshold : ℕ
  pub tier_limits : List (ℕ × ℕ)

pub record Keeper : Type 0 where
  pub wallets : Dict ExchangeWallet
  pub orders : Dict Order
  pub trades : List Trade
  pub kyc_apps : Dict KycApplication
  pub pairs : Dict TradingPair
  pub daily_limits : Dict DailyLimit
  pub config : ExchangeConfig
  pub buy_book : Dict (List String)
  pub sell_book : Dict (List String)
  pub wallet_seq : ℕ
  pub order_seq : ℕ
  pub trade_seq : ℕ
  pub kyc_seq : ℕ

pub data Error : Type 0 where
  wallet_not_found wallet_exists wallet_inactive insufficient_balance : Error
  insufficient_kyc daily_limit_exceeded order_not_found order_cancelled order_filled : Error
  invalid_price below_min_order pair_not_found pair_inactive trading_disabled : Error
  registration_closed kyc_already_pending kyc_already_approved unauthorized : Error
  kyc_not_found : String → Error
  kyc_not_pending : KycStatus → Error

abbrev pub default_config : ExchangeConfig
default_config = record {
  fee_collector = "ftg_fee_collector";
  trading_enabled = true;
  registration_open = true;
  aml_threshold = 10000000000;
  tier_limits = (0, 0) ∷ (1, 1000000000) ∷ (2, 50000000000) ∷ (3, 0) ∷ [];
}

-- The pair of initDefaultPairs.
abbrev pub ftg_usdc : TradingPair
ftg_usdc = record {
  id = "FTG-USDC";
  base_denom = "uftg";
  quote_denom = "uusdc";
  base_symbol = "FTG";
  quote_symbol = "USDC";
  min_order_size = 1000000;
  price_increment = 10000;
  size_increment = 100000;
  maker_fee = 10;
  taker_fee = 25;
  active = true;
}

-- The keeper of a home directory that holds no saved state.
abbrev pub new_keeper : Keeper
new_keeper = record {
  wallets = [];
  orders = [];
  trades = [];
  kyc_apps = [];
  pairs = ("FTG-USDC", ftg_usdc) ∷ [];
  daily_limits = [];
  config = default_config;
  buy_book = [];
  sell_book = [];
  wallet_seq = 0;
  order_seq = 0;
  trade_seq = 0;
  kyc_seq = 0;
}

abbrev pub is_buy : OrderSide → Bool
is_buy buy = true
is_buy _ = false

abbrev pub is_limit : OrderType → Bool
is_limit limit = true
is_limit _ = false

-- `m[tier]` of the tier limits.
unfoldable pub tier_limit : ℕ → List (ℕ × ℕ) → ℕ
tier_limit t [] = 0
tier_limit t ((u, n) ∷ m) = if u == t then n else tier_limit t m
