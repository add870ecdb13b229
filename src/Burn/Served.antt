-- ===== src/Burn/Served.antt =====
-- Sequences of messages to x/burn, between other transactions: each is one call of the keeper, or none.
use ftg_chain.Base.{
  ◌≤◌, ◌<◌, ◌≡◌, refl, sym, ap, subst, ◌∙◌, ◌⊎◌, inl, inr, Bool-cases, Option-cases, List, [], ◌∷◌,
  String, str_eq, arith,
}
use ftg_chain.Base.Word.{half}
use ftg_chain.Base.Dict.{values}
use ftg_chain.Base.Lists.{length}
use ftg_chain.Base.Time.{Time}
use ftg_chain.Sdk.Numbers.{Numbers}
use ftg_chain.Sdk.Supply.{Supply}
use ftg_chain.Sdk.Texts.{Texts}
use ftg_chain.Burn.Types.{Store, new_store}
use ftg_chain.Burn.Burns.{Burn, burn_tokens, merchant_request, merchant_protocol_burn}
use ftg_chain.Burn.Totals.{Totals}
use ftg_chain.Burn.History.{Call, burns, adds_merchant, elsewhere, step, run, burn_stats_totalled}
use ftg_chain.Burn.Messages.{
  MsgBurnTokens, MsgMerchantBurn, MsgAddMerchant, Message, burn_message, merchant_message,
  add_message, burn_response, burn_response-state, burn_requested, merchant_burn, add_merchant,
  serve,
}

pub data Event (S : Type 0) : Type 0 where
  message_at : Message → Time → Event S
  bank_changes : S → Event S

module _ {S Int Decimal : Type 0} (texts : Texts Int Decimal) (m : Numbers Int Decimal)
    (b : Supply S Int) (authority : String) where
  unfoldable pub happens : Event S → Store S Int Decimal → Store S Int Decimal
  happens (message_at msg now) k = serve texts m b authority msg now k
  happens (bank_changes s) k = record k { bank = s }

  unfoldable pub happen : List (Event S) → Store S Int Decimal → Store S Int Decimal
  unfolding happens
  happen [] k = k
  happen (e ∷ es) k = happen es (happens e k)

  abbrev OneCall : Store S Int Decimal → Store S Int Decimal → Type 0
  OneCall k k' = (k' ≡ k) ⊎ ((c : Call S Int Decimal) × (k' ≡ step m b c k))

  module _ (now : Time) (k : Store S Int Decimal) where
    -- A burn that the keeper is asked for.
    asked : (req : Burn Int Decimal) → OneCall k (burn_response texts (burn_tokens m b req now k)).0
    unfolding step
    asked req = inr (burns req now, burn_response-state texts (burn_tokens m b req now k))

    burn_requested-OneCall :
        (msg : MsgBurnTokens) → OneCall k (burn_requested texts m b msg now k).0
    unfolding burn_requested
    burn_requested-OneCall msg = elim (Option-cases (texts.address_of msg.sender)) [
      | inl unread ↦ rw (burn_requested, unread) (inl refl)
      | inr (sender, a) ↦ elim (Option-cases (texts.int_of msg.amount)) [
        | inl unread ↦ rw (burn_requested, a, unread) (inl refl)
        | inr (amount, i) ↦ rw (burn_requested, a, i) (asked _)
      ]
    ]

    merchant_burn-OneCall :
        (msg : MsgMerchantBurn) → OneCall k (merchant_burn texts m b msg now k).0
    unfolding merchant_burn merchant_protocol_burn
    merchant_burn-OneCall msg = elim (Option-cases (texts.address_of msg.sender)) [
      | inl unread ↦ rw (merchant_burn, unread) (inl refl)
      | inr (sender, a) ↦ elim (Option-cases (texts.int_of msg.tokens_purchased)) [
        | inl unread ↦ rw (merchant_burn, a, unread) (inl refl)
        | inr (tokens, i) ↦ elim (Option-cases (texts.dec_of msg.energy_revenue_usd)) [
          | inl unread ↦ rw (merchant_burn, a, i, unread) (inl refl)
          | inr (revenue, r) ↦ elim (Option-cases (texts.dec_of msg.dex_purchase_price)) [
            | inl unread ↦ rw (merchant_burn, a, i, r, unread) (inl refl)
            | inr (price, p) ↦
                rw (merchant_burn, a, i, r, p)
                  (asked
                    (merchant_request sender revenue price tokens msg.vault_id msg.grid_operator))
          ]
        ]
      ]
    ]

    add_merchant-OneCall : (msg : MsgAddMerchant) → OneCall k (add_merchant texts authority msg k).0
    unfolding add_merchant step
    add_merchant-OneCall msg = elim (Bool-cases (str_eq msg.authority authority)) [
      | inr other ↦ rw (add_merchant, other) (inl refl)
      | inl known ↦ elim (Option-cases (texts.address_of msg.merchant_address)) [
        | inl unread ↦ rw (add_merchant, known, unread) (inl refl)
        | inr (merchant, a) ↦ rw (add_merchant, known, a) (inr (adds_merchant merchant, refl))
      ]
    ]

  happens-OneCall : (e : Event S) (k : Store S Int Decimal) → OneCall k (happens e k)
  unfolding happens serve step
  happens-OneCall (message_at (burn_message msg) now) k = burn_requested-OneCall now k msg
  happens-OneCall (message_at (merchant_message msg) now) k = merchant_burn-OneCall now k msg
  happens-OneCall (message_at (add_message msg) now) k = add_merchant-OneCall now k msg
  happens-OneCall (bank_changes s) k = inr (elsewhere s, refl)

  -- The events are a history of at most as many calls.
  happen-run :
      (es : List (Event S)) (k : Store S Int Decimal)
      → (cs : List (Call S Int Decimal)) × (length cs ≤ length es) × (happen es k ≡ run m b cs k)
  unfolding happen run
  happen-run [] k = ([], omega arith, refl)
  happen-run (e ∷ es) k =
      let (cs, short, same) = happen-run es (happens e k) in
      elim (happens-OneCall e k) [
        | inl quiet ↦ (cs, omega arith, same ∙ ap (run m b cs) quiet)
        | inr (c, called) ↦ (c ∷ cs, omega arith, same ∙ ap (run m b cs) called)
      ]

  -- After any sequence of fewer than 2 ^ 63 messages and other transactions, messages that fail
  -- included, the burn statistics are those of the stored events: the number of events, the sum of
  -- their amounts, the sums for each of the three sources, and the energy revenue of the merchant
  -- protocol, added in the order of the events.
  pub burn_stats_served :
      (s : S) (es : List (Event S))
      → length es < half
      → let k = happen es (new_store m s) in
        (k.stats.total_burn_events ≡ length (values k.burn_events))
        × Totals m (values k.burn_events) k.stats
  burn_stats_served s es h =
      let (cs, short, same) = happen-run es (new_store m s) in
      subst
        (λ (k : Store S Int Decimal).
          (k.stats.total_burn_events ≡ length (values k.burn_events))
          × Totals m (values k.burn_events) k.stats)
        (sym same) (burn_stats_totalled m b s cs (omega arith))
