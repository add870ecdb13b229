-- ===== src/Node/Trading/Tests.antt =====
-- Runs of the exchange handlers on concrete requests, and instances of what is proved of every
-- request.
use ftg_chain.Base.{◌<◌, ◌≡◌, refl, none, some, true, List, [], ◌∷◌, arith}
use ftg_chain.Base.Word.{word}
use ftg_chain.Base.Dict.{lookup}
use ftg_chain.Base.Lists.{All}
use ftg_chain.Base.Result.{ok}
use ftg_chain.Node.Http.{Body, bad_request, success, post_or_panic, read_json, query_get}
use ftg_chain.Compliance.Types as ComplianceTypes
use ftg_chain.Compliance.Screening.{is_jurisdiction_blocked, blocked_in}
use ftg_chain.Exchange.Types.{ExchangeWallet, new_keeper}
use ftg_chain.Exchange.Wallets.{wallet_id}
use ftg_chain.Exchange.Orders.Sound.{BooksOk}
use ftg_chain.Node.Trading.{
  ExchangeRpc, CreateWalletRequest, PlaceOrderRequest, handle_create_wallet, handle_place_order,
  place_requested, order_side,
}
use ftg_chain.Node.Trading.Kyc.{KycSubmitRequest}
use ftg_chain.Node.Trading.Queries.{handle_check_jurisdiction}
use ftg_chain.Node.Trading.Served.{
  Request, wallet, place, submit, reads, order_book, IsSized, serve_all, served-BooksOk,
}

abbrev holding : {A : Type 0} → A → Body A
holding a = record { read_error = none; parsed = ok a }

abbrev started : ExchangeRpc
started = record { exchange = new_keeper; kyc = ComplianceTypes.new_keeper }

abbrev sam : CreateWalletRequest
sam = record { user_id = "sam"; label = "main" }

abbrev joined : ExchangeRpc
joined = (handle_create_wallet "POST" (holding sam) 5 started).0

abbrev sams : ExchangeWallet
sams = record {
  id = "FTG-W-000001";
  user_id = "sam";
  address = "ftg1exchangeFTG-W-000001";
  label = "main";
  created_at = 5;
  kyc_tier = 0;
  balances = [];
  locked = [];
  active = true;
}

-- From Cuba, which the compliance keeper blocks.
abbrev from_cuba : KycSubmitRequest
from_cuba = record {
  user_id = "sam";
  wallet_id = "FTG-W-000001";
  requested_tier = 1;
  email = "sam@example.org";
  phone = "";
  country = "CU";
  full_name = "Sam";
  date_of_birth = "";
  id_type = "";
  id_number = "";
  company_name = "";
  company_reg_no = "";
}

cuba_checked :
    handle_check_jurisdiction (("country", "CU") ∷ []) started
    ≡ success
        (record { country_code = "CU"; blocked = true; reason = "OFAC comprehensive sanctions" })
unfolding handle_check_jurisdiction query_get lookup is_jurisdiction_blocked blocked_in
cuba_checked = refl

abbrev bid : PlaceOrderRequest
bid = record {
  wallet_id = "FTG-W-000001";
  pair_id = "FTG-USDC";
  side = "hold";
  order_type = "limit";
  price = 1000000;
  quantity = 1000000;
}

no_such_side :
    handle_place_order "POST" (holding bid) 7 8 "2026-05-10" started
    ≡ some (started, bad_request "side must be 'buy' or 'sell'")
unfolding handle_place_order post_or_panic read_json place_requested order_side
no_such_side = refl

abbrev asked : List Request
asked =
    wallet "POST" (holding sam) 5
    ∷ submit "POST" (holding from_cuba) 6 7
    ∷ place "POST" (holding (record bid { side = "buy" })) 7 8 "2026-05-10"
    ∷ reads (order_book [] 9)
    ∷ []

bid_sized :
    (req : PlaceOrderRequest)
    → read_json (holding (record bid { side = "buy" })) ≡ ok req
    → req.quantity < word
unfolding read_json
bid_sized req e = let q : req.quantity ≡ 1000000 = cc in omega arith

asked-IsSized : All IsSized asked
asked-IsSized = (tt, (tt, (bid_sized, (tt, tt))))

served-BooksOk_example : (s : ExchangeRpc) × (serve_all asked started ≡ some s) × BooksOk s.exchange
served-BooksOk_example = served-BooksOk asked ComplianceTypes.new_keeper (omega arith) asked-IsSized
