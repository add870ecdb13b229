-- ===== src/Exchange/History/Faultless.antt =====
-- Well-formed exchanges over a history of calls.
use native.Mathlib.Nat.{zero-add, suc-add}
use ftg_chain.Base.{
  ℕ, subst, suc, ◌+◌, ◌<◌, ◌≡◌, refl, sym, ap, ◌∙◌, inl, inr, Bool, true, false, some, some_eq,
  List, [], ◌∷◌, String, arith, str_eq, Bool-cases, Option-cases, if_either,
}
use ftg_chain.Base.Word.{half, word, slt}
use ftg_chain.Base.Dict.{Dict, lookup, insert, lookup-insert}
use ftg_chain.Base.Lists.{length, All}
use ftg_chain.Base.Time.{Time}
use ftg_chain.Base.Result.{Result, ok, err}
use ftg_chain.Exchange.Types.{
  Keeper, ExchangeWallet, KycApplication, Error, new_keeper, approved, kyc_not_found,
  kyc_not_pending,
}
use ftg_chain.Exchange.Wallets.{
  create_wallet, deposit_to_wallet, withdraw_from_wallet, available, has_active_wallet,
}
use ftg_chain.Exchange.Wallets.Totals.{present, is_some, is_some-value, present-insert}
use ftg_chain.Exchange.Matching.Books.{BookOk, BookOk-frame}
use ftg_chain.Exchange.Orders.Sound.{Sound, Sound-frame, BooksOk, side_book, side_book-same}
use ftg_chain.Exchange.Orders.Placing.{place_order-Sound}
use ftg_chain.Exchange.Orders.Cancelling.{cancel_order-Sound}
use ftg_chain.Exchange.Kyc.{submit_kyc, approve_kyc, reject_kyc, has_pending, file_kyc, is_pending}
use ftg_chain.Exchange.Kyc.Screened.{file_kyc-applicant}
use ftg_chain.Exchange.History.{
  Call, creates_wallet, deposits, withdraws, places, cancels, submits, approves, rejects, state_of,
  step, run,
}

-- The quantities that a caller passes are int64 words.
abbrev pub WordSized : Call → Type 0
WordSized (places r now today) = r.quantity < word
WordSized _ = Unit

-- A call has left a well-formed exchange.
abbrev SoundAfter : {A : Type 0} → ℕ → Keeper × A → Type 0
SoundAfter room x = Sound room x.0

module _ (room : ℕ) (k : Keeper) (v : Sound (suc room) k) where
  idle : Sound room k
  idle = Sound-frame k refl refl refl refl refl refl (λ j h. h) v

  -- Wallets are written, and none goes.
  wallets_written :
      (id : String) (w : ExchangeWallet) (n : ℕ)
      → Sound room (record k { wallets = insert id w k.wallets; wallet_seq = n })
  wallets_written id w n =
      Sound-frame _ refl refl refl refl refl refl (λ j h. present-insert id j w k.wallets h) v

  -- An application of a wallet that is there is written, and wallets with it.
  application_written :
      (ws : Dict ExchangeWallet) (id : String) (a : KycApplication) (n : ℕ)
      → ((j : String) → present j k.wallets ≡ true → present j ws ≡ true)
      → present a.wallet_id k.wallets ≡ true
      → Sound room (record k { wallets = ws; kyc_apps = insert id a k.kyc_apps; kyc_seq = n })
  application_written ws id a n more there =
      let k' : Keeper = record k { wallets = ws; kyc_seq = n } in
      let s : Sound room k' = Sound-frame k' refl refl refl refl refl refl more v in
      record {
        within = s.within;
        pairs = s.pairs;
        fresh = s.fresh;
        books = λ b p.
            subst (BookOk (record k' { kyc_apps = insert id a k.kyc_apps }) b p)
              (sym
                (side_book-same k' (record k' { kyc_apps = insert id a k.kyc_apps }) refl refl b p))
              (BookOk-frame k' (record k' { kyc_apps = insert id a k.kyc_apps }) b p
                (side_book b p k') (λ j h. h) (λ i l. refl) (s.books b p));
        owners = s.owners;
        applicants = λ j x e. elim (Bool-cases (str_eq id j)) [
          | inl same ↦
              let t : a ≡ x = some_eq (rw same at (rw (lookup-insert id j a k.kyc_apps) at e)) in
              more x.wallet_id (ap (λ y. present y.wallet_id k.wallets) (sym t) ∙ there)
          | inr other ↦ s.applicants j x (rw other at (rw (lookup-insert id j a k.kyc_apps) at e))
        ];
      }

  create_wallet-Sound : (u l : String) (t : Time) → Sound room (create_wallet u l t k).0
  unfolding create_wallet
  create_wallet-Sound u l t =
      if_either (SoundAfter room) k.config.registration_open
        (if_either (SoundAfter room) (has_active_wallet u k.wallets) idle (wallets_written _ _ _))
        idle

  deposit_to_wallet-Sound : (id d : String) (n : ℕ) → Sound room (deposit_to_wallet id d n k).0
  unfolding deposit_to_wallet
  deposit_to_wallet-Sound id d n = elim (Option-cases (lookup id k.wallets)) [
    | inl missing ↦ rw (missing, deposit_to_wallet) idle
    | inr (w, found) ↦
        rw (found, deposit_to_wallet)
          (if_either (SoundAfter room) w.active (wallets_written _ _ _) idle)
  ]

  withdraw_from_wallet-Sound :
      (id d : String) (n : ℕ) → Sound room (withdraw_from_wallet id d n k).0
  unfolding withdraw_from_wallet
  withdraw_from_wallet-Sound id d n = elim (Option-cases (lookup id k.wallets)) [
    | inl missing ↦ rw (missing, withdraw_from_wallet) idle
    | inr (w, found) ↦
        rw (found, withdraw_from_wallet)
          (if_either (SoundAfter room) w.active
            (if_either (SoundAfter room) (slt (available d w) n) idle (wallets_written _ _ _)) idle)
  ]

  file_kyc-Sound :
      (app : KycApplication) (w : ExchangeWallet) (now : Time)
      → lookup app.wallet_id k.wallets ≡ some w
      → Sound room (file_kyc app w now k).0
  unfolding file_kyc
  file_kyc-Sound app w now found =
      application_written _ _ (file_kyc app w now k).1 _
        (λ j h. present-insert app.wallet_id j _ k.wallets h)
        (ap (λ j. present j k.wallets) (file_kyc-applicant app w now k) ∙ ap is_some found)

  submit_kyc-Sound : (app : KycApplication) (now : Time) → Sound room (submit_kyc app now k).0
  unfolding submit_kyc
  submit_kyc-Sound app now =
      if_either (SoundAfter room) (has_pending app.user_id k.kyc_apps) idle
        (elim (Option-cases (lookup app.wallet_id k.wallets)) [
          | inl missing ↦ rw missing idle
          | inr (w, found) ↦ rw found (
              if_either (SoundAfter room) (slt w.kyc_tier app.requested_tier)
                (file_kyc-Sound app w now found) idle)
        ])

  reject_kyc-Sound : (id reason : String) (now : Time) → Sound room (reject_kyc id reason now k).0
  unfolding reject_kyc
  reject_kyc-Sound id reason now = elim (Option-cases (lookup id k.kyc_apps)) [
    | inl missing ↦ rw (missing, reject_kyc) idle
    | inr (app, found) ↦
        rw (found, reject_kyc)
          (application_written k.wallets id _ _ (λ j h. h) (v.applicants id app found))
  ]

  approve_kyc-Sound :
      (id : String) (now : Time)
      → (x : Keeper × Result Error (Unit {0})) × (approve_kyc id now k ≡ some x) × Sound room x.0
  unfolding approve_kyc
  approve_kyc-Sound id now = elim (Option-cases (lookup id k.kyc_apps)) [
    | inl missing ↦ ((k, err (kyc_not_found id)), rw (missing, approve_kyc) refl, idle)
    | inr (app, found) ↦ elim (Bool-cases (is_pending app.status)) [
      | inr closed ↦
          ((k, err (kyc_not_pending app.status)), rw (found, closed, approve_kyc) refl, idle)
      | inl waits ↦
          let (w, there) =
            is_some-value (lookup app.wallet_id k.wallets) (v.applicants id app found) in
          (
            (_, ok tt),
            rw (found, waits, there, approve_kyc) refl,
            application_written
                (insert app.wallet_id (record w { kyc_tier = app.requested_tier }) k.wallets) id
                (record app { status = approved; approved_at = some now; reviewed_at = some now })
                k.kyc_seq (λ j h. present-insert app.wallet_id j _ k.wallets h)
                (v.applicants id app found),
          )
    ]
  ]

  -- Every call returns, keeps the exchange well formed and uses up one number at most.
  pub step-Sound : (c : Call) → WordSized c → (k' : Keeper) × (step c k ≡ some k') × Sound room k'
  unfolding step state_of
  step-Sound (creates_wallet u l t) s = (_, refl, create_wallet-Sound u l t)
  step-Sound (deposits id d n) s = (_, refl, deposit_to_wallet-Sound id d n)
  step-Sound (withdraws id d n) s = (_, refl, withdraw_from_wallet-Sound id d n)
  step-Sound (submits app now) s = (_, refl, submit_kyc-Sound app now)
  step-Sound (rejects id reason now) s = (_, refl, reject_kyc-Sound id reason now)
  step-Sound (places r now today) s =
      let (x, run, sound) = place_order-Sound room k r now today v s in
      (x.0, ap state_of run, sound)
  step-Sound (cancels id w now) s =
      let (x, run, sound) = cancel_order-Sound room k id w now v in (x.0, ap state_of run, sound)
  step-Sound (approves id now) s =
      let (x, run, sound) = approve_kyc-Sound id now in (x.0, ap state_of run, sound)

pub run-Sound :
    (cs : List Call) (room : ℕ) (k : Keeper)
    → Sound (length cs + room) k
    → All WordSized cs
    → (k' : Keeper) × (run cs k ≡ some k') × Sound room k'
unfolding run
run-Sound [] room k v s = (k, refl, rw (zero-add room) at v)
run-Sound (c ∷ cs) room k v (s, ss) =
    let (k₁, done, v₁) = step-Sound (length cs + room) k (rw (suc-add (length cs) room) at v) c s in
    let (k', run', v') = run-Sound cs room k₁ v₁ ss in (k', rw (done, run) run', v')

pub new_keeper-Sound : (room : ℕ) → room < half → Sound room new_keeper
unfolding lookup
new_keeper-Sound room h = record {
  within = omega arith;
  pairs = refl;
  fresh = λ n hn above. refl;
  books = λ b p. empty b p;
  owners = λ id x e. absurd (cc);
  applicants = λ id a e. absurd (cc);
}
  where
    empty : (b : Bool) (p : String) → BookOk new_keeper b p (side_book b p new_keeper)
    empty true p = tt
    empty false p = tt

-- From a new keeper, any history of fewer than 2 ^ 63 calls whose order quantities are int64 words
-- runs to its end: no call dereferences a nil pointer. In the state that it reaches every book is
-- well formed: each entry is a stored order of the book's side and pair, with a positive amount left
-- and an owner whose wallet is there, and no order is entered twice.
pub run-BooksOk :
    (cs : List Call)
    → length cs < half
    → All WordSized cs
    → (k : Keeper) × (run cs new_keeper ≡ some k) × BooksOk k
run-BooksOk cs h sized =
    let (k, done, v) =
      run-Sound cs 0 new_keeper (new_keeper-Sound (length cs + 0) (omega arith)) sized in
    (k, done, v.books)
