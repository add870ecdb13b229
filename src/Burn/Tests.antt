-- ===== src/Burn/Tests.antt =====
-- Runs of x/burn on a bank of balances.
use ftg_chain.Base.{ℕ, ◌≡◌, refl, none, some, List, [], ◌∷◌, arith, str_eq, if◌then◌else◌}
use ftg_chain.Base.Dict.{lookup, insert, values}
use ftg_chain.Base.Lists.{length}
use ftg_chain.Base.Sprintf.{sprintf_unsigned}
use ftg_chain.Base.Word.{add64}
use ftg_chain.Base.Result.{err}
use ftg_chain.Sdk.Simple.{Amount, positive, numbers, Balances, supply, send, move, put, destroy}
use ftg_chain.Burn.Types.{MerchantBurnData, Store, new_store, below_minimum}
use ftg_chain.Burn.Burns.{
  Burn, burn_id, burn_error, burned, burn_tokens, set_burn_event, add_authorized_merchant,
  is_authorized_merchant, update_burn_stats, add_by_source, add_revenue,
}
use ftg_chain.Burn.Totals.{Totals}
use ftg_chain.Burn.History.{Call, burns, adds_merchant, step, run}
use ftg_chain.Burn.Messages.{
  burn_message, add_message, serve, burn_requested, burn_response, add_merchant,
}
use ftg_chain.Burn.Served.{Event, message_at, happen, happens, burn_stats_served}
use ftg_chain.Sdk.Texts.{Texts}

abbrev start : Balances
start = put "grid" "uftg" 9000000 (λ a d. 0)

abbrev by_hand : Burn Amount ℕ
by_hand = record {
  sender = "grid";
  amount = positive 2000000;
  source = "manual";
  merchant_data = none;
}

abbrev sold : MerchantBurnData ℕ
sold = record {
  energy_revenue_usd = 70;
  dex_purchase_price = 2;
  vault_id = "vault";
  grid_operator = "operator";
}

abbrev by_merchant : Burn Amount ℕ
by_merchant = record {
  sender = "grid";
  amount = positive 3000000;
  source = "merchant_protocol";
  merchant_data = some sold;
}

abbrev calls : List (Call Balances Amount ℕ)
calls = burns by_merchant 1 ∷ adds_merchant "grid" ∷ burns by_merchant 2 ∷ burns by_hand 3 ∷ []

abbrev after : Store Balances Amount ℕ
after = run numbers supply calls (new_store numbers start)

totals : after.stats ≡ record {
  total_burned = positive 5000000;
  total_burn_events = 2;
  merchant_protocol_burned = positive 3000000;
  manual_burned = positive 2000000;
  redemption_burned = positive 0;
  total_energy_revenue_usd = 70;
}
unfolding run step burn_tokens burn_error burned burn_id sprintf_unsigned set_burn_event
    add_authorized_merchant is_authorized_merchant update_burn_stats add_by_source add_revenue
    lookup insert add64 send move put destroy
totals = refl

too_little :
    (burn_tokens numbers supply
      (record by_hand { amount = positive 5 })
      1
      (new_store numbers start)).1
    ≡ err (below_minimum (positive 5) (positive 1000000))
unfolding burn_tokens burn_error
too_little = refl

abbrev texts : Texts Amount ℕ
texts = record {
  address_of = λ s. some s;
  int_of = λ s. if str_eq s "2 FTG" then some (positive 2000000) else none;
  dec_of = λ s. none;
  show_address = λ a. a;
  show_int = λ i. "shown";
  show_dec = λ d. "shown";
}

-- A burn, a text that is not read, and a merchant that the authority does not add.
abbrev events : List (Event Balances)
events =
    message_at (burn_message (record { sender = "grid"; amount = "2 FTG"; source = "redemption" }))
      1
    ∷ message_at (burn_message (record { sender = "grid"; amount = "two"; source = "manual" })) 2
    ∷ message_at (add_message (record { authority = "grid"; merchant_address = "grid" })) 3
    ∷ []

abbrev served : Store Balances Amount ℕ
served = happen texts numbers supply "gov" events (new_store numbers start)

one_burn : served.stats.redemption_burned ≡ positive 2000000
unfolding happen happens serve burn_requested burn_response add_merchant burn_tokens burn_error
    burned burn_id sprintf_unsigned set_burn_event update_burn_stats add_by_source add64 insert send
    move put destroy
one_burn = refl

burn_stats_served_example :
    (served.stats.total_burn_events ≡ length (values served.burn_events))
    × Totals numbers (values served.burn_events) served.stats
burn_stats_served_example = burn_stats_served texts numbers supply "gov" start events (omega arith)
