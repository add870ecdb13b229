-- ===== src/Exchange/History/Frozen.antt =====
-- Wallets that a submission has frozen, over a history of calls.
use ftg_chain.Base.{
  ℕ, subst, suc, ◌+◌, ◌<◌, ◌≡◌, refl, sym, ap, ◌∙◌, inl, inr, true, none, some, some_eq, List, [],
  ◌∷◌, String, arith, Bool-cases, Option-cases, if_either,
}
use native.Mathlib.Nat.{zero-add, suc-add}
use ftg_chain.Base.Word.{half, slt, add64, add64_nat}
use ftg_chain.Base.Dict.{lookup, lookup-insert_ne}
use ftg_chain.Base.Fresh.{Fresh, Fresh-new}
use ftg_chain.Base.Lists.{length}
use ftg_chain.Base.Time.{Time}
use ftg_chain.Base.Result.{Result, ok, err}
use ftg_chain.Exchange.Types.{
  Keeper, ExchangeWallet, KycApplication, Error, new_keeper, wallet_inactive,
}
use ftg_chain.Exchange.Wallets.{
  create_wallet, wallet_id, deposit_to_wallet, withdraw_from_wallet, credit, debit, available,
}
use ftg_chain.Exchange.Orders.{Request, place_order, cancel_order}
use ftg_chain.Exchange.Kyc.{submit_kyc, approve_kyc, reject_kyc, has_pending, file_kyc, is_pending}
use ftg_chain.Exchange.Kyc.{is_high_risk}
use ftg_chain.Exchange.Wallets.{has_active_wallet}
use ftg_chain.Exchange.Kyc.Screened.{
  submit_kyc-books, submit_kyc-Screened, place_order-inactive, deposit_to_wallet-inactive,
}
use ftg_chain.Exchange.History.{
  Call, creates_wallet, deposits, withdraws, places, cancels, submits, approves, rejects, state_of,
  step, run,
}
use ftg_chain.Exchange.History.Retired.{left_by}
use ftg_chain.Exchange.History.Still.{
  Inactive, Still, Still-same, Still-insert, place_order-Still, cancel_order-Still,
}

module _ (k : Keeper) where
  deposit_to_wallet-Still : (id d : String) (n : ℕ) → Still k (deposit_to_wallet id d n k).0
  unfolding deposit_to_wallet credit
  deposit_to_wallet-Still id d n = elim (Option-cases (lookup id k.wallets)) [
    | inl missing ↦ rw (missing, deposit_to_wallet) (Still-same k k refl refl)
    | inr (w, found) ↦
        rw (found, deposit_to_wallet)
          (if_either (λ (x : Keeper × Result Error (Unit {0})). Still k x.0) w.active
            (Still-insert k _ id w _ found (λ off. off) refl refl) (Still-same k k refl refl))
  ]

  withdraw_from_wallet-Still : (id d : String) (n : ℕ) → Still k (withdraw_from_wallet id d n k).0
  unfolding withdraw_from_wallet debit
  withdraw_from_wallet-Still id d n = elim (Option-cases (lookup id k.wallets)) [
    | inl missing ↦ rw (missing, withdraw_from_wallet) (Still-same k k refl refl)
    | inr (w, found) ↦
        rw (found, withdraw_from_wallet)
          (if_either (λ (x : Keeper × Result Error (Unit {0})). Still k x.0) w.active
            (if_either (λ (x : Keeper × Result Error (Unit {0})). Still k x.0)
              (slt (available d w) n) (Still-same k k refl refl)
              (Still-insert k _ id w _ found (λ off. off) refl refl))
            (Still-same k k refl refl))
  ]

  reject_kyc-Still : (id reason : String) (now : Time) → Still k (reject_kyc id reason now k).0
  unfolding reject_kyc
  reject_kyc-Still id reason now = Still-same k _ (ground arith) (ground arith)

  submit_kyc-Still : (app : KycApplication) (now : Time) → Still k (submit_kyc app now k).0
  unfolding submit_kyc file_kyc
  submit_kyc-Still app now =
      if_either (λ (x : Keeper × Result Error KycApplication). Still k x.0)
        (has_pending app.user_id k.kyc_apps) (Still-same k k refl refl)
        (elim (Option-cases (lookup app.wallet_id k.wallets)) [
          | inl missing ↦ rw missing (Still-same k k refl refl)
          | inr (w, found) ↦ rw found (
              if_either (λ (x : Keeper × Result Error KycApplication). Still k x.0)
                (slt w.kyc_tier app.requested_tier)
                (Still-insert k _ app.wallet_id w _ found (λ off. ground (arith, off)) refl refl)
                (Still-same k k refl refl))
        ])

  approve_kyc-Still :
      (id : String) (now : Time) (x : Keeper × Result Error (Unit {0}))
      → approve_kyc id now k ≡ some x
      → Still k x.0
  unfolding approve_kyc
  approve_kyc-Still id now x e = elim (Option-cases (lookup id k.kyc_apps)) [
    | inl missing ↦
        subst (λ y. Still k y.0) (some_eq (rw (missing, approve_kyc) at e))
          (Still-same k k refl refl)
    | inr (app, found) ↦ elim (Bool-cases (is_pending app.status)) [
      | inr closed ↦
          subst (λ y. Still k y.0) (some_eq (rw (found, closed, approve_kyc) at e))
            (Still-same k k refl refl)
      | inl waits ↦ elim (Option-cases (lookup app.wallet_id k.wallets)) [
        | inl gone ↦
            absurd (let f : none ≡ some x = rw (found, waits, gone, approve_kyc) at e in cc)
        | inr (w, there) ↦
            subst (λ y. Still k y.0) (some_eq (rw (found, waits, there, approve_kyc) at e))
              (Still-insert k _ app.wallet_id w (record w { kyc_tier = app.requested_tier }) there
                (λ off. off) refl refl)
      ]
    ]
  ]

-- There are numbers left for `room` wallets, and none is taken.
abbrev Numbered : ℕ → Keeper → Type 0
Numbered room k = (k.wallet_seq + room < half) × Fresh "FTG-W-" 6 k.wallet_seq k.wallets

-- What a call does: it takes a number at most, and makes no wallet active.
abbrev Frozen : ℕ → Keeper → Keeper → Type 0
Frozen room k k' =
    Numbered room k' × ((id : String) → Inactive id k.wallets → Inactive id k'.wallets)

still-Frozen : (room : ℕ) (k k' : Keeper) → Numbered (suc room) k → Still k k' → Frozen room k k'
still-Frozen room k k' (h, fresh) s = (
  (let n = s.seq in omega arith, rw s.seq (λ n hn above. s.free _ (fresh n hn above))),
  s.inactive,
)

create_wallet-Frozen :
    (room : ℕ) (k : Keeper) (u l : String) (t : Time)
    → Numbered (suc room) k
    → Frozen room k (create_wallet u l t k).0
unfolding create_wallet wallet_id
create_wallet-Frozen room k u l t (h, fresh) =
    let kept : Frozen room k k = still-Frozen room k k (h, fresh) (Still-same k k refl refl) in
    let next : add64 k.wallet_seq 1 ≡ k.wallet_seq + 1 = add64_nat k.wallet_seq 1 (omega arith) in
    if_either (λ (x : Keeper × Result Error ExchangeWallet). Frozen room k x.0)
      k.config.registration_open
      (if_either (λ (x : Keeper × Result Error ExchangeWallet). Frozen room k x.0)
        (has_active_wallet u k.wallets) kept
        (
          (omega arith, Fresh-new "FTG-W-" 6 k.wallet_seq k.wallets _ (omega arith) fresh),
          λ id (w, e, off). (
            w,
            lookup-insert_ne (wallet_id (add64 k.wallet_seq 1)) id _ k.wallets (λ s.
                  let f : none ≡ some w =
                    sym (fresh (add64 k.wallet_seq 1) (omega arith) (omega arith))
                    ∙ ap (λ i. lookup i k.wallets) s
                    ∙ e in
                  absurd (cc))
                ∙ e,
            off,
          ),
        ))
      kept

step-Frozen :
    (c : Call) (room : ℕ) (k k' : Keeper)
    → Numbered (suc room) k
    → step c k ≡ some k'
    → Frozen room k k'
unfolding step state_of
step-Frozen (creates_wallet u l t) room k k' v e =
    subst (Frozen room k) (some_eq e) (create_wallet-Frozen room k u l t v)
step-Frozen (deposits i d n) room k k' v e =
    subst (Frozen room k) (some_eq e) (still-Frozen room k _ v (deposit_to_wallet-Still k i d n))
step-Frozen (withdraws i d n) room k k' v e =
    subst (Frozen room k) (some_eq e) (still-Frozen room k _ v (withdraw_from_wallet-Still k i d n))
step-Frozen (submits app now) room k k' v e =
    subst (Frozen room k) (some_eq e) (still-Frozen room k _ v (submit_kyc-Still k app now))
step-Frozen (rejects i reason now) room k k' v e =
    subst (Frozen room k) (some_eq e) (still-Frozen room k _ v (reject_kyc-Still k i reason now))
step-Frozen (places r now today) room k k' v e =
    left_by (Frozen room k) (place_order r now today k) k' e
      (λ x f. still-Frozen room k x.0 v (place_order-Still r now today k x f))
step-Frozen (cancels j w now) room k k' v e =
    left_by (Frozen room k) (cancel_order j w now k) k' e
      (λ x f. still-Frozen room k x.0 v (cancel_order-Still j w now k x f))
step-Frozen (approves i now) room k k' v e =
    left_by (Frozen room k) (approve_kyc i now k) k' e
      (λ x f. still-Frozen room k x.0 v (approve_kyc-Still k i now x f))

run-Frozen :
    (cs : List Call) (room : ℕ) (k k' : Keeper)
    → Numbered (length cs + room) k
    → run cs k ≡ some k'
    → Frozen room k k'
unfolding run
run-Frozen [] room k k' v e = subst (Frozen room k) (some_eq e) (rw (zero-add room) at v, λ id i. i)
run-Frozen (c ∷ cs) room k k' v e = elim (Option-cases (step c k)) [
  | inl stop ↦ absurd (let f : none ≡ some k' = rw (stop, run) at e in cc)
  | inr (k₁, done) ↦
      let (v₁, first) =
        step-Frozen c (length cs + room) k k₁ (rw (suc-add (length cs) room) at v) done in
      let (v', later) = run-Frozen cs room k₁ k' v₁ (rw (done, run) at e) in
      (v', λ id i. later id (first id i))
]

start-Numbered : (room : ℕ) → room < half → Numbered room new_keeper
unfolding lookup
start-Numbered room h = (omega arith, λ n hn above. refl)

-- From a new keeper, in any history of fewer than 2 ^ 63 calls: once a submission of an applicant from
-- a high-risk country has succeeded, in every state that the calls after it reach, the applicant's
-- wallet is there and not active, and can place no order, take no deposit and make no withdrawal:
-- each is refused as one of an inactive wallet and changes nothing, whatever it asks for. The
-- submission itself leaves all orders and books as they were, so that orders of the wallet that stand
-- on a book stay there.
pub frozen_for_good :
    (before later : List Call) (app filed : KycApplication) (t now : Time) (k k' k'' : Keeper)
    (r : Request) (today d : String) (n : ℕ)
    → length before + suc (length later) < half
    → run before new_keeper ≡ some k
    → is_high_risk app.country ≡ true
    → submit_kyc app t k ≡ (k', ok filed)
    → run later k' ≡ some k''
    → r.wallet_id ≡ app.wallet_id
    → Inactive app.wallet_id k''.wallets
      × (place_order r now today k'' ≡ some (k'', err wallet_inactive))
      × (deposit_to_wallet app.wallet_id d n k'' ≡ (k'', err wallet_inactive))
      × (withdraw_from_wallet app.wallet_id d n k'' ≡ (k'', err wallet_inactive))
      × (k'.orders ≡ k.orders)
      × (k'.buy_book ≡ k.buy_book)
      × (k'.sell_book ≡ k.sell_book)
frozen_for_good before later app filed t now k k' k'' r today d n h reach risky e went own =
    let v =
      run-Frozen before (suc (length later + 0)) new_keeper k
        (start-Numbered (length before + suc (length later + 0)) (omega arith)) reach in
    let s : Still k k' = subst (Still k) (ap (λ x. x.0) e) (submit_kyc-Still k app t) in
    let v' = still-Frozen (length later + 0) k k' v.0 s in
    let (w₀, w₁, found, there, screened) = submit_kyc-Screened app filed t k k' e in
    let (v'', kept) = run-Frozen later 0 k' k'' v'.0 went in
    let (w, stored, off) = kept app.wallet_id (w₁, there, screened.active ∙ rw risky refl) in
    let (orders, buys, sells) = submit_kyc-books app filed t k k' e in
    let (no_deposit, no_withdrawal) =
      deposit_to_wallet-inactive app.wallet_id d n k'' w stored off in
    (
      (w, stored, off),
      place_order-inactive r now today k'' w (ap (λ j. lookup j k''.wallets) own ∙ stored) off,
      no_deposit,
      no_withdrawal,
      orders,
      buys,
      sells,
    )
