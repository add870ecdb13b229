-- ===== src/Node/Trading/Served.antt =====
-- What any sequence of requests to the handlers of cmd/ftgd/rpc_exchange.go does to the exchange
-- keeper.
use native.Mathlib.Nat.{zero-add, suc-add}
use mathlib.Core.Option.{none-ne-some}
use ftg_chain.Base.{
  suc, ◌+◌, subst, some_eq, ℕ, ◌<◌, ◌≡◌, refl, sym, ap, ◌∙◌, ◌⊎◌, inl, inr, Option, none, some,
  Option-cases, List, [], ◌∷◌, String, arith,
}
use ftg_chain.Base.Word.{word, half}
use ftg_chain.Base.Dict.{Dict}
use ftg_chain.Base.Lists.{length, All}
use ftg_chain.Base.Time.{Time}
use ftg_chain.Base.Result.{Result, ok, err}
use ftg_chain.Node.Http.{
  Body, Response, post, post_answer, post_or_panic, post_or_panic_answer, read_json, number_or,
  query_get,
}
use ftg_chain.Compliance.Types as ComplianceTypes
use ftg_chain.Compliance.Flags as Flags
use ftg_chain.Exchange.Types.{Keeper, KycApplication, Error, new_keeper}
use ftg_chain.Exchange.Wallets.{create_wallet, deposit_to_wallet, withdraw_from_wallet}
use ftg_chain.Exchange.Orders.{cancel_order}
use ftg_chain.Exchange.Kyc.{submit_kyc, approve_kyc, reject_kyc}
use ftg_chain.Exchange.History.{
  Call, creates_wallet, deposits, withdraws, places, cancels, submits, approves, rejects, state_of,
  step,
}
use ftg_chain.Exchange.History.Faultless.{WordSized, step-Sound, new_keeper-Sound}
use ftg_chain.Exchange.Orders.Sound.{Sound, Sound-frame, BooksOk}
use ftg_chain.Exchange.Market.Listing.{get_order_book-some}
use ftg_chain.Node.Trading.Queries.{
  handle_get_wallet, handle_list_orders, handle_recent_trades, handle_check_jurisdiction,
  handle_order_book, handle_pairs, handle_exchange_stats, handle_compliance_stats,
  handle_compliance_flags, pair_or_default,
}
use ftg_chain.Node.Trading.{
  ExchangeRpc, CreateWalletRequest, MoneyRequest, PlaceOrderRequest, CancelOrderRequest, order_side,
  order_type, order_request, exchanged, exchanged_or_panic, place_answer, place_requested,
  handle_create_wallet, handle_deposit, handle_withdraw, handle_place_order, handle_cancel_order,
}
use ftg_chain.Node.Trading.Kyc.{
  KycSubmitRequest, KycApproveRequest, KycRejectRequest, ScreenRequest, ResolveFlagRequest,
  application_of, submit_answer, submit_requested, resolve_answer, handle_kyc_submit,
  handle_kyc_approve, handle_kyc_reject, handle_kyc_screen, handle_compliance_resolve,
}

-- A request to a handler that only reads, with its query and the reading of the clock.
pub data Read : Type 0 where
  get_wallet list_orders recent_trades jurisdiction : Dict String → Read
  order_book : Dict String → Time → Read
  pairs exchange_stats : Time → Read
  compliance_stats compliance_flags : Read

-- A request to a handler, with the readings of the clock and the height.
pub data Request : Type 0 where
  wallet : String → Body CreateWalletRequest → Time → Request
  deposit : String → Body MoneyRequest → Request
  withdraw : String → Body MoneyRequest → Request
  place : String → Body PlaceOrderRequest → ℕ → Time → String → Request
  cancel : String → Body CancelOrderRequest → Time → Request
  submit : String → Body KycSubmitRequest → Time → Time → Request
  approve : String → Body KycApproveRequest → Time → Request
  reject : String → Body KycRejectRequest → Time → Request
  screen : String → Body ScreenRequest → Time → Request
  resolve : String → Body ResolveFlagRequest → Time → Request
  reads : Read → Request

-- The numbers of a body are int64 words, as JSON decodes them.
abbrev pub IsSized : Request → Type 0
IsSized (place m b h now today) =
    (req : PlaceOrderRequest) → read_json b ≡ ok req → req.quantity < word
IsSized _ = Unit

pub left_by : {A : Type 0} → Option (ExchangeRpc × A) → Option ExchangeRpc
left_by none = none
left_by (some x) = some x.0

-- The state after an answer that was given.
abbrev pub after_answer : {A : Type 0} → A → ExchangeRpc → Option ExchangeRpc
after_answer answer s = some s

abbrev pub after_answer_or_panic : {A : Type 0} → Option A → ExchangeRpc → Option ExchangeRpc
after_answer_or_panic none s = none
after_answer_or_panic (some answer) s = some s

unfoldable pub read : Read → ExchangeRpc → Option ExchangeRpc
read (get_wallet query) s = after_answer (handle_get_wallet query s) s
read (list_orders query) s = after_answer (handle_list_orders query s) s
read (recent_trades query) s = after_answer (handle_recent_trades query s) s
read (jurisdiction query) s = after_answer (handle_check_jurisdiction query s) s
read (order_book query now) s = after_answer_or_panic (handle_order_book query now s) s
read (pairs now) s = after_answer (handle_pairs now s) s
read (exchange_stats now) s = after_answer (handle_exchange_stats now s) s
read compliance_stats s = after_answer (handle_compliance_stats s) s
read compliance_flags s = after_answer (handle_compliance_flags s) s

unfoldable pub serve : Request → ExchangeRpc → Option ExchangeRpc
unfolding read
serve (wallet m b t) s = some (handle_create_wallet m b t s).0
serve (deposit m b) s = some (handle_deposit m b s).0
serve (withdraw m b) s = some (handle_withdraw m b s).0
serve (place m b h now today) s = left_by (handle_place_order m b h now today s)
serve (cancel m b now) s = left_by (handle_cancel_order m b now s)
serve (submit m b t u) s = some (handle_kyc_submit m b t u s).0
serve (approve m b now) s = left_by (handle_kyc_approve m b now s)
serve (reject m b now) s = some (handle_kyc_reject m b now s).0
serve (screen m b now) s = some (handle_kyc_screen m b now s).0
serve (resolve m b now) s = some (handle_compliance_resolve m b now s).0
serve (reads r) s = read r s

unfoldable pub serve_all : List Request → ExchangeRpc → Option ExchangeRpc
unfolding serve
serve_all [] s = some s
serve_all (r ∷ rs) s = elim (serve r s) [ none ↦ none | some s' ↦ serve_all rs s' ]

pub exchange_of : Option ExchangeRpc → Option Keeper
exchange_of none = none
exchange_of (some s) = some s.exchange

exchanged-exchange :
    {A B : Type 0} (s : ExchangeRpc) (f : A → B) (x : Keeper × Result Error A)
    → (exchanged s f x).0.exchange ≡ x.0
unfolding exchanged
exchanged-exchange s f (k, ok a) = refl
exchanged-exchange s f (k, err e) = refl

exchanged_or_panic-exchange :
    {A B : Type 0} (s : ExchangeRpc) (f : A → B) (x : Option (Keeper × Result Error A))
    → exchange_of (left_by (exchanged_or_panic s f x)) ≡ state_of x
unfolding exchanged_or_panic exchange_of left_by state_of
exchanged_or_panic-exchange s f none = refl
exchanged_or_panic-exchange s f (some x) = ap some (exchanged-exchange s f x)

submit_answer-exchange :
    (req : KycSubmitRequest) (t : Time) (s : ExchangeRpc) (x : Keeper × Result Error KycApplication)
    → (submit_answer req t s x).0.exchange ≡ x.0
unfolding submit_answer
submit_answer-exchange req t s (k, ok a) = refl
submit_answer-exchange req t s (k, err e) = refl

resolve_answer-exchange :
    (req : ResolveFlagRequest) (s : ExchangeRpc)
    (x : ComplianceTypes.Keeper × Result Flags.Error (Unit {0}))
    → (resolve_answer req s x).0.exchange ≡ s.exchange
unfolding resolve_answer
resolve_answer-exchange req s (k, ok a) = refl
resolve_answer-exchange req s (k, err e) = refl

-- What a request leaves of the exchange keeper: what was there, or what one call leaves.
pub Outcome : Keeper → Option ExchangeRpc → Type 0
Outcome k after =
    (exchange_of after ≡ some k) ⊎ ((c : Call) × WordSized c × (exchange_of after ≡ step c k))

module _ (s : ExchangeRpc) where
  posted :
      {E A R : Type 0} (m : String) (b : Body R)
      (handler : R → ExchangeRpc → ExchangeRpc × Response E A)
      → ((req : R) → Outcome s.exchange (some (handler req s).0))
      → Outcome s.exchange (some (post m b handler s).0)
  unfolding Outcome exchange_of
  posted m b handler served =
      post_answer (λ x. Outcome s.exchange (some x.0)) m b handler s (inl refl) (λ _. inl refl)
        served

  posted_or_panic :
      {E A R : Type 0} (m : String) (b : Body R)
      (handler : R → ExchangeRpc → Option (ExchangeRpc × Response E A))
      → ((req : R) → read_json b ≡ ok req → Outcome s.exchange (left_by (handler req s)))
      → Outcome s.exchange (left_by (post_or_panic m b handler s))
  unfolding Outcome exchange_of left_by
  posted_or_panic m b handler served =
      post_or_panic_answer (λ x. Outcome s.exchange (left_by x)) m b handler s (inl refl)
        (λ _. inl refl) served

  placed :
      (h : ℕ) (now : Time) (today : String) (req : PlaceOrderRequest)
      → req.quantity < word
      → Outcome s.exchange (left_by (place_requested h now today req s))
  unfolding Outcome exchange_of left_by place_requested step
  placed h now today req sized = elim (Option-cases (order_side req.side)) [
    | inl no_side ↦ rw (left_by, no_side) (inl refl)
    | inr (side, es) ↦ elim (Option-cases (order_type req.order_type)) [
      | inl no_type ↦ rw (left_by, es, no_type) (inl refl)
      | inr (kind, et) ↦
          rw (left_by, es, et)
            (inr (
              places (order_request req side kind h) now today,
              sized,
              exchanged_or_panic-exchange s place_answer _,
            ))
    ]
  ]

  -- A handler that reads answers where the books are well formed.
  read-some : (r : Read) → BooksOk s.exchange → read r s ≡ some s
  unfolding read handle_order_book
  read-some (get_wallet query) books = refl
  read-some (list_orders query) books = refl
  read-some (recent_trades query) books = refl
  read-some (jurisdiction query) books = refl
  read-some (order_book query now) books =
      let (book, e) =
        get_order_book-some (pair_or_default query) (number_or 20 (query_get "depth" query)) now
          s.exchange books in
      rw (handle_order_book, e) refl
  read-some (pairs now) books = refl
  read-some (exchange_stats now) books = refl
  read-some compliance_stats books = refl
  read-some compliance_flags books = refl

  -- A request to one of the handlers leaves the exchange keeper as it was, or as one of its calls
  -- does, with a quantity that is an int64 word; it panics where that call does, if the books are
  -- well formed.
  pub serve-Outcome :
      (r : Request) → IsSized r → BooksOk s.exchange → Outcome s.exchange (serve r s)
  unfolding serve handle_create_wallet handle_deposit handle_withdraw handle_place_order
      handle_cancel_order handle_kyc_submit submit_requested handle_kyc_approve handle_kyc_reject
      handle_kyc_screen handle_compliance_resolve step Outcome exchange_of
  serve-Outcome (wallet m b t) _ books = posted m b _ λ req. inr (
    creates_wallet req.user_id req.label t,
    tt,
    ap some (exchanged-exchange s (λ w. w) (create_wallet req.user_id req.label t s.exchange)),
  )
  serve-Outcome (deposit m b) _ books = posted m b _ λ req. inr (
    deposits req.wallet_id req.denom req.amount,
    tt,
    ap some
        (exchanged-exchange s _ (deposit_to_wallet req.wallet_id req.denom req.amount s.exchange)),
  )
  serve-Outcome (withdraw m b) _ books = posted m b _ λ req. inr (
    withdraws req.wallet_id req.denom req.amount,
    tt,
    ap some (
        exchanged-exchange s _
          (withdraw_from_wallet req.wallet_id req.denom req.amount s.exchange)),
  )
  serve-Outcome (place m b h now today) sized books =
      posted_or_panic m b _ λ req e. placed h now today req (sized req e)
  serve-Outcome (cancel m b now) _ books = posted_or_panic m b _ λ req _. inr (
    cancels req.order_id req.wallet_id now,
    tt,
    exchanged_or_panic-exchange s _ (cancel_order req.order_id req.wallet_id now s.exchange),
  )
  serve-Outcome (submit m b t u) _ books = posted m b _ λ req. inr (
    submits (application_of req) t,
    tt,
    ap some (submit_answer-exchange req u s (submit_kyc (application_of req) t s.exchange)),
  )
  serve-Outcome (approve m b now) _ books = posted_or_panic m b _ λ req _. inr (
    approves req.application_id now,
    tt,
    exchanged_or_panic-exchange s _ (approve_kyc req.application_id now s.exchange),
  )
  serve-Outcome (reject m b now) _ books = posted m b _ λ req. inr (
    rejects req.application_id req.reason now,
    tt,
    ap some (exchanged-exchange s _ (reject_kyc req.application_id req.reason now s.exchange)),
  )
  serve-Outcome (screen m b now) _ books = posted m b _ λ req. inl refl
  serve-Outcome (resolve m b now) _ books =
      posted m b _ λ req. inl (ap some (resolve_answer-exchange req s _))
  serve-Outcome (reads r) _ books = inl (ap exchange_of (read-some r books))

module _ (room : ℕ) (s : ExchangeRpc) (v : Sound (suc room) s.exchange) where
  left :
      (after : Option ExchangeRpc)
      → Outcome s.exchange after
      → (s' : ExchangeRpc) × (after ≡ some s') × Sound room s'.exchange
  unfolding Outcome exchange_of
  left none (inl kept) = absurd (none-ne-some _ kept)
  left (some s') (inl kept) =
      let fewer = Sound-frame s.exchange refl refl refl refl refl refl (λ j h. h) v in
      (s', refl, subst (Sound room) (sym (some_eq kept)) fewer)
  left none (inr (c, w, done)) =
      let (k, stepped, sound) = step-Sound room s.exchange v c w in
      absurd (none-ne-some k (done ∙ stepped))
  left (some s') (inr (c, w, done)) =
      let (k, stepped, sound) = step-Sound room s.exchange v c w in
      (s', refl, subst (Sound room) (sym (some_eq (done ∙ stepped))) sound)

serve_all-Sound :
    (rs : List Request) (room : ℕ) (s : ExchangeRpc)
    → Sound (length rs + room) s.exchange
    → All IsSized rs
    → (s' : ExchangeRpc) × (serve_all rs s ≡ some s') × Sound room s'.exchange
unfolding serve_all
serve_all-Sound [] room s v sized = (s, refl, rw (zero-add room) at v)
serve_all-Sound (r ∷ rs) room s v sized =
    let v' = rw (suc-add (length rs) room) at v in
    let (s₁, served, sound) =
      left (length rs + room) s v' (serve r s) (serve-Outcome s r sized.0 v.books) in
    let (s', done, sound') = serve_all-Sound rs room s₁ sound sized.1 in
    (s', rw (serve_all, served) done, sound')

-- From a new exchange keeper, with any compliance keeper, no sequence of fewer than 2 ^ 63 requests
-- to the handlers, those that read included, panics, and in the state that it reaches every order
-- book of the exchange is well formed.
pub served-BooksOk :
    (rs : List Request) (kyc : ComplianceTypes.Keeper)
    → length rs < half
    → All IsSized rs
    → (s : ExchangeRpc) × (serve_all rs (record { exchange = new_keeper; kyc = kyc }) ≡ some s)
      × BooksOk s.exchange
served-BooksOk rs kyc fewer sized =
    let (s, done, v) =
      serve_all-Sound rs 0 (record { exchange = new_keeper; kyc = kyc })
        (new_keeper-Sound (length rs + 0) (omega arith)) sized in
    (s, done, v.books)
