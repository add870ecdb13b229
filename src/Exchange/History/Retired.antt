-- ===== src/Exchange/History/Retired.antt =====
-- What follows on a cancellation, over a history of calls.
use ftg_chain.Base.{
  ℕ, subst, suc, ◌+◌, ◌<◌, ◌≡◌, ◌≢◌, refl, sym, ap, ◌∙◌, none, some, some_eq, Option, List, [], ◌∷◌,
  String, arith,
}
use native.Mathlib.Nat.{suc-add}
use ftg_chain.Base.Word.{half, add64, add64_nat}
use ftg_chain.Base.Dict.{lookup}
use ftg_chain.Base.Lists.{length, All}
use ftg_chain.Base.Time.{Time}
use ftg_chain.Base.Result.{Result, ok, err}
use ftg_chain.Exchange.Types.{
  Keeper, Order, OrderStatus, KycApplication, Error, new_keeper, order_cancelled,
}
use ftg_chain.Exchange.Wallets.{create_wallet, deposit_to_wallet, withdraw_from_wallet}
use ftg_chain.Exchange.Orders.{order_id, cancel_order, place_order}
use ftg_chain.Exchange.Orders.Sound.{Sound}
use ftg_chain.Exchange.Orders.Retired.{
  OffBooks, Retired, SameBooks, Retired-frame, cancelled-Retired,
}
use ftg_chain.Exchange.Orders.Retiring.{place_order-Retired, cancel_order-Retired}
use ftg_chain.Exchange.Orders.Cancelling.{cancel_order-Sound}
use ftg_chain.Exchange.Orders.Cancelled.{cancel_order-steps, cancel_order-refused, as_cancelled}
use ftg_chain.Exchange.Kyc.{submit_kyc, approve_kyc, reject_kyc, file_kyc}
use ftg_chain.Exchange.History.{
  Call, creates_wallet, deposits, withdraws, places, cancels, submits, approves, rejects, state_of,
  step, run,
}
use ftg_chain.Exchange.History.Faultless.{WordSized, step-Sound, new_keeper-Sound, run-Sound}

-- The calls that write neither orders nor books.
module _ (k : Keeper) where
  create_wallet-SameBooks : (u l : String) (t : Time) → SameBooks k (create_wallet u l t k).0
  unfolding create_wallet
  create_wallet-SameBooks u l t = ground arith

  deposit_to_wallet-SameBooks : (id d : String) (n : ℕ) → SameBooks k (deposit_to_wallet id d n k).0
  unfolding deposit_to_wallet
  deposit_to_wallet-SameBooks id d n = ground arith

  withdraw_from_wallet-SameBooks :
      (id d : String) (n : ℕ) → SameBooks k (withdraw_from_wallet id d n k).0
  unfolding withdraw_from_wallet
  withdraw_from_wallet-SameBooks id d n = ground arith

  submit_kyc-SameBooks : (app : KycApplication) (now : Time) → SameBooks k (submit_kyc app now k).0
  unfolding submit_kyc file_kyc
  submit_kyc-SameBooks app now = ground arith

  reject_kyc-SameBooks :
      (id reason : String) (now : Time) → SameBooks k (reject_kyc id reason now k).0
  unfolding reject_kyc
  reject_kyc-SameBooks id reason now = ground arith

  approve_kyc-SameBooks :
      (id : String) (now : Time) (x : Keeper × Result Error (Unit {0}))
      → approve_kyc id now k ≡ some x
      → SameBooks k x.0
  unfolding approve_kyc
  approve_kyc-SameBooks id now x e = ground arith

-- The next order is another one.
order_id-ne :
    (room : ℕ) (k : Keeper) (id : String) (o : Order)
    → Sound (suc room) k
    → Retired id o k
    → order_id (add64 k.order_seq 1) ≢ id
unfolding order_id
order_id-ne room k id o s v same =
    let h = s.within in
    let n : add64 k.order_seq 1 ≡ k.order_seq + 1 = add64_nat k.order_seq 1 (omega arith) in
    let free : lookup (order_id (add64 k.order_seq 1)) k.orders ≡ none =
      s.fresh (add64 k.order_seq 1) (omega arith) (omega arith) in
    let f : none ≡ some o = sym free ∙ ap (λ i. lookup i k.orders) same ∙ v.stored in absurd (cc)

-- What holds of the state that a call leaves.
pub left_by :
    {A : Type 0} (P : Keeper → Type 0) (x : Option (Keeper × A)) (k' : Keeper)
    → state_of x ≡ some k'
    → ((y : Keeper × A) → x ≡ some y → P y.0)
    → P k'
unfolding state_of
left_by P none k' e all = absurd (cc)
left_by P (some y) k' e all = subst P (some_eq e) (all y refl)

-- A call leaves an order off the books that is off the books.
step-Retired :
    (c : Call) (room : ℕ) (k k' : Keeper) (id : String) (o : Order)
    → Sound (suc room) k
    → step c k ≡ some k'
    → Retired id o k
    → Retired id o k'
unfolding step state_of
step-Retired (creates_wallet u l t) room k k' id o s e v =
    subst (Retired id o) (some_eq e) (Retired-frame id o k _ (create_wallet-SameBooks k u l t) v)
step-Retired (deposits i d n) room k k' id o s e v =
    subst (Retired id o) (some_eq e)
      (Retired-frame id o k _ (deposit_to_wallet-SameBooks k i d n) v)
step-Retired (withdraws i d n) room k k' id o s e v =
    subst (Retired id o) (some_eq e)
      (Retired-frame id o k _ (withdraw_from_wallet-SameBooks k i d n) v)
step-Retired (submits app now) room k k' id o s e v =
    subst (Retired id o) (some_eq e) (Retired-frame id o k _ (submit_kyc-SameBooks k app now) v)
step-Retired (rejects i reason now) room k k' id o s e v =
    subst (Retired id o) (some_eq e)
      (Retired-frame id o k _ (reject_kyc-SameBooks k i reason now) v)
step-Retired (places r now today) room k k' id o s e v =
    left_by (Retired id o) (place_order r now today k) k' e
      (λ x f. place_order-Retired id o r now today k x (order_id-ne room k id o s v) f v)
step-Retired (cancels j w now) room k k' id o s e v =
    left_by (Retired id o) (cancel_order j w now k) k' e
      (λ x f. cancel_order-Retired id j w o now k x f v)
step-Retired (approves i now) room k k' id o s e v =
    left_by (Retired id o) (approve_kyc i now k) k' e
      (λ x f. Retired-frame id o k x.0 (approve_kyc-SameBooks k i now x f) v)

run-Retired :
    (cs : List Call) (room : ℕ) (k : Keeper) (id : String) (o : Order)
    → Sound (length cs + room) k
    → All WordSized cs
    → Retired id o k
    → (k' : Keeper) × (run cs k ≡ some k') × Retired id o k'
unfolding run
run-Retired [] room k id o s sized v = (k, refl, v)
run-Retired (c ∷ cs) room k id o s (z, sized) v =
    let s' = rw (suc-add (length cs) room) at s in
    let (k₁, done, s₁) = step-Sound (length cs + room) k s' c z in
    let (k', later, v') =
      run-Retired cs room k₁ id o s₁ sized
        (step-Retired c (length cs + room) k k₁ id o s' done v) in
    (k', rw (done, run) later, v')

-- From a new keeper, in any history of fewer than 2 ^ 63 calls whose order quantities are int64 words:
-- once CancelOrder has succeeded, the calls that follow it run to their end, and in the state that
-- they reach the order is still stored as the cancellation left it, marked cancelled, it is on no
-- book, and another call of CancelOrder by its owner is refused and changes nothing. So no order is
-- matched after its cancellation, and its lock is released once.
pub cancelled_for_good :
    (before later : List Call) (id wallet_id : String) (now again : Time) (k k' : Keeper)
    → length before + suc (length later) < half
    → All WordSized before
    → All WordSized later
    → run before new_keeper ≡ some k
    → cancel_order id wallet_id now k ≡ some (k', ok tt)
    → (o : Order) × (k'' : Keeper) × (run later k' ≡ some k'')
      × (lookup id k'.orders ≡ some o)
      × (lookup id k''.orders ≡ some o)
      × (o.status ≡ OrderStatus.cancelled)
      × OffBooks id k''
      × (cancel_order id wallet_id again k'' ≡ some (k'', err order_cancelled))
cancelled_for_good before later id wallet_id now again k k' h sized_before sized reach e =
    let (x, done, s₀) =
      run-Sound before (suc (length later + 0)) new_keeper
        (new_keeper-Sound (length before + suc (length later + 0)) (omega arith)) sized_before in
    let same : x ≡ k = some_eq (sym done ∙ reach) in
    let s : Sound (suc (length later + 0)) k = subst (Sound (suc (length later + 0))) same s₀ in
    let (y, ran, s_y) = cancel_order-Sound (length later + 0) k id wallet_id now s in
    let s' : Sound (length later + 0) k' =
      subst (Sound (length later + 0)) (ap (λ z. z.0) (some_eq (sym ran ∙ e))) s_y in
    let (o, w, pair, found, own, owner, of_pair, state) =
      cancel_order-steps id wallet_id now k k' e in
    let v =
      subst (Retired id (as_cancelled now o)) (sym state)
        (cancelled-Retired (suc (length later + 0)) k id o w pair now s found) in
    let (k'', went, v'') = run-Retired later 0 k' id (as_cancelled now o) s' sized v in
    (
      as_cancelled now o,
      k'',
      went,
      v.stored,
      v''.stored,
      refl,
      v''.off,
      cancel_order-refused id wallet_id again k'' (as_cancelled now o) v''.stored own refl,
    )
