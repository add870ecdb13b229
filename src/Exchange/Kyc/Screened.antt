-- ===== src/Exchange/Kyc/Screened.antt =====
-- What SubmitKYC decides, and what PlaceOrder makes of it.
use ftg_chain.Base.{
  ℕ, subst, ◌≡◌, refl, sym, ap, ◌∙◌, inl, inr, Bool, true, false, ◌||◌, ◌==◌, if◌then◌else◌, some,
  String, arith, Bool-cases, Option-cases,
}
use ftg_chain.Base.Word.{add64}
use ftg_chain.Base.Dict.{lookup, lookup-insert_self}
use ftg_chain.Base.Time.{Time}
use ftg_chain.Base.Result.{ok, err}
use ftg_chain.Exchange.Types.{
  Keeper, ExchangeWallet, KycApplication, pending, approved, rejected, wallet_inactive,
  kyc_tier_basic,
}
use ftg_chain.Exchange.Wallets.{deposit_to_wallet, withdraw_from_wallet}
use ftg_chain.Exchange.Orders.{Request, checked, place_order}
use ftg_chain.Exchange.Kyc.{
  is_high_risk, is_auto_approved, run_aml_checks, screened, file_kyc, submit_kyc, auto_tier, freeze,
}

-- A submission that succeeds found the wallet and is filed for it.
submit_kyc-file_kyc :
    (app filed : KycApplication) (now : Time) (k k' : Keeper)
    → submit_kyc app now k ≡ (k', ok filed)
    → (w : ExchangeWallet) × (lookup app.wallet_id k.wallets ≡ some w)
      × (k' ≡ (file_kyc app w now k).0)
      × (filed ≡ (file_kyc app w now k).1)
unfolding submit_kyc
submit_kyc-file_kyc app filed now k k' e = elim (Option-cases (lookup app.wallet_id k.wallets)) [
  | inl missing ↦ absurd (ground (arith, missing))
  | inr (w, found) ↦ (w, found, ground (arith, found), ground (arith, found))
]

-- The applicant is sanctioned: from a high-risk country, or marked by the caller.
abbrev pub is_sanctioned : KycApplication → Bool
is_sanctioned app = is_high_risk app.country || app.sanctions_check

abbrev pub asks_basic : KycApplication → Bool
asks_basic app = app.requested_tier == kyc_tier_basic

-- What the application and the wallet are after a submission that succeeds.
pub record Screened (app filed : KycApplication) (now : Time) (w w' : ExchangeWallet) : Type 0 where
  pub applicant : (filed.user_id ≡ app.user_id) × (filed.wallet_id ≡ app.wallet_id)
  pub asked : filed.requested_tier ≡ app.requested_tier
  pub marked : filed.sanctions_check ≡ is_sanctioned app
  pub scored : filed.aml_risk_score ≡ (if is_high_risk app.country then 80 else 0)
  pub no_pep : filed.pep_check ≡ false
  pub decided :
      filed.status
      ≡ (if is_sanctioned app then rejected else if asks_basic app then approved else pending)
  pub approval : is_sanctioned app ≡ false → asks_basic app ≡ true → filed.approved_at ≡ some now
  pub active : w'.active ≡ (if is_sanctioned app then false else w.active)
  pub tier : w'.kyc_tier ≡ (
      if is_sanctioned app
      then w.kyc_tier
      else if asks_basic app
      then kyc_tier_basic
      else w.kyc_tier)
  pub money : (w'.balances ≡ w.balances) × (w'.locked ≡ w.locked)

file_kyc-Screened :
    (app : KycApplication) (w : ExchangeWallet) (now : Time) (k : Keeper)
    → (w' : ExchangeWallet) × (lookup app.wallet_id (file_kyc app w now k).0.wallets ≡ some w')
      × Screened app (file_kyc app w now k).1 now w w'
unfolding file_kyc screened run_aml_checks is_auto_approved
file_kyc-Screened app w now k =
    let s = screened app w (add64 k.kyc_seq 1) now in
    let w' = freeze s (auto_tier s w) in
    (
      w',
      lookup-insert_self app.wallet_id w' k.wallets,
      elim (Bool-cases (is_high_risk app.country)) [
        | inl risky ↦ record {
          applicant = ground (arith, risky);
          asked = ground (arith, risky);
          marked = ground (arith, risky);
          scored = ground (arith, risky);
          no_pep = ground (arith, risky);
          decided = ground (arith, risky);
          approval = ground (arith, risky);
          active = ground (arith, risky);
          tier = ground (arith, risky);
          money = ground (arith, risky);
        }
        | inr safe ↦ record {
          applicant = ground (arith, safe);
          asked = ground (arith, safe);
          marked = ground (arith, safe);
          scored = ground (arith, safe);
          no_pep = ground (arith, safe);
          decided = ground (arith, safe);
          approval = ground (arith, safe);
          active = ground (arith, safe);
          tier = ground (arith, safe);
          money = ground (arith, safe);
        }
      ],
    )

-- After a submission that succeeds the wallet is there, and: the application keeps its user, wallet
-- and requested tier; it carries the sanctions mark exactly where the applicant is from a high-risk
-- country or the caller had set the mark, the risk score 80 for such a country and else 0, and no PEP
-- mark; it is rejected where it carries the sanctions mark, else approved at once (with the time of
-- the call) where the basic tier is asked for, and else pending. The wallet is frozen where the mark
-- is there and else as active as it was; it has the basic tier where the application was approved at
-- once and else its own; its balances and locks stay.
pub submit_kyc-Screened :
    (app filed : KycApplication) (now : Time) (k k' : Keeper)
    → submit_kyc app now k ≡ (k', ok filed)
    → (w w' : ExchangeWallet) × (lookup app.wallet_id k.wallets ≡ some w)
      × (lookup app.wallet_id k'.wallets ≡ some w')
      × Screened app filed now w w'
submit_kyc-Screened app filed now k k' e =
    let (w, found, state, result) = submit_kyc-file_kyc app filed now k k' e in
    let (w', there, s) = file_kyc-Screened app w now k in
    (
      w,
      w',
      found,
      ap (λ x. lookup app.wallet_id x.wallets) state ∙ there,
      subst (λ x. Screened app x now w w') (sym result) s,
    )

checked-inactive :
    (r : Request) (k : Keeper) (w : ExchangeWallet)
    → lookup r.wallet_id k.wallets ≡ some w
    → w.active ≡ false
    → checked r k ≡ err wallet_inactive
unfolding checked
checked-inactive r k w found frozen = rw (found, frozen) refl

-- A wallet that is not active places no order: the call changes nothing.
pub place_order-inactive :
    (r : Request) (now : Time) (today : String) (k : Keeper) (w : ExchangeWallet)
    → lookup r.wallet_id k.wallets ≡ some w
    → w.active ≡ false
    → place_order r now today k ≡ some (k, err wallet_inactive)
unfolding place_order
place_order-inactive r now today k w found frozen =
    rw (checked-inactive r k w found frozen, place_order) refl

-- A wallet that is not active takes no deposit and gives nothing out.
pub deposit_to_wallet-inactive :
    (id d : String) (n : ℕ) (k : Keeper) (w : ExchangeWallet)
    → lookup id k.wallets ≡ some w
    → w.active ≡ false
    → (deposit_to_wallet id d n k ≡ (k, err wallet_inactive))
      × (withdraw_from_wallet id d n k ≡ (k, err wallet_inactive))
unfolding deposit_to_wallet withdraw_from_wallet
deposit_to_wallet-inactive id d n k w found frozen =
    (rw (deposit_to_wallet, found, frozen) refl, rw (withdraw_from_wallet, found, frozen) refl)

-- Filing writes no order and no book.
file_kyc-books :
    (app : KycApplication) (w : ExchangeWallet) (now : Time) (k : Keeper)
    → let k' = (file_kyc app w now k).0 in
      (k'.orders ≡ k.orders) × (k'.buy_book ≡ k.buy_book) × (k'.sell_book ≡ k.sell_book)
unfolding file_kyc
file_kyc-books app w now k = (refl, refl, refl)

pub submit_kyc-books :
    (app filed : KycApplication) (now : Time) (k k' : Keeper)
    → submit_kyc app now k ≡ (k', ok filed)
    → (k'.orders ≡ k.orders) × (k'.buy_book ≡ k.buy_book) × (k'.sell_book ≡ k.sell_book)
submit_kyc-books app filed now k k' e =
    let (w, found, state, result) = submit_kyc-file_kyc app filed now k k' e in
    let (os, bb, sb) = file_kyc-books app w now k in
    (
      ap (λ x. x.orders) state ∙ os,
      ap (λ x. x.buy_book) state ∙ bb,
      ap (λ x. x.sell_book) state ∙ sb,
    )

-- The filed application is for the wallet that was asked for.
pub file_kyc-applicant :
    (app : KycApplication) (w : ExchangeWallet) (now : Time) (k : Keeper)
    → (file_kyc app w now k).1.wallet_id ≡ app.wallet_id
file_kyc-applicant app w now k = let (w', there, s) = file_kyc-Screened app w now k in s.applicant.1
