-- ===== src/Treasury/Steps.antt =====
-- The operations of x/treasury keep the commitments backed.
use mathlib.Core.Option.{none-ne-some}
use ftg_chain.Base.{
  ℕ, ◌+◌, ◌≤◌, ◌==◌, ◌≡◌, refl, sym, ap, subst, ◌∙◌, ◌≢◌, inl, inr, true, false, some, some_eq,
  Option-cases, Bool-cases, String, arith, str_eq, eq_iff, if_either, ne_of_eq_false,
}
use ftg_chain.Base.Word.{add64}
use ftg_chain.Base.Dict.{lookup}
use ftg_chain.Base.Sums.{sum_of-insert, sum_of-insert_le}
use ftg_chain.Sdk.Numbers.{Numbers, IsNumbers}
use ftg_chain.Sdk.Bank.{Bank, IsBank}
use ftg_chain.Treasury.Types.{
  unset, cancelled, Commitment, TreasuryConfig, TransferToCommitted, TransferToLiquidity,
  DeliverCommitment, CancelCommitment, Treasury, is_funded, is_cancellable,
}
use ftg_chain.Treasury.Wallets.{
  set_commitment, get_commitment, new_commitment, empty_commitment, commitment_id, commit, deliver,
  cancel, delivered_to, get_minting_balance, transfer_minting_to_committed,
  transfer_minting_to_liquidity, deliver_commitment, cancel_commitment_op,
}
use ftg_chain.Treasury.Backed.{
  option_either, is_funded-is_cancellable, true-ne-false, not_cancellable-not_funded,
  Entries-insert, weight, Kept, Backed,
}

module _ {S Int Decimal : Type 0} (m : Numbers Int Decimal) (numbers : IsNumbers m) (b : Bank S Int)
    (bank : IsBank numbers.read b) (config : TreasuryConfig)
    (apart : config.minting_wallet_address ≢ config.committed_wallet_address) where
  -- A commitment that is open is stored under the identifier that found it.
  pub get_commitment-lookup :
      (id : String) (t : Treasury S Int Decimal) (c : Commitment Int Decimal)
      → get_commitment m id t ≡ some c
      → is_cancellable c.status ≡ true
      → (str_eq id "count" ≡ false) × (lookup id t.commitments ≡ some c)
  unfolding get_commitment
  get_commitment-lookup id t c e h = elim (Bool-cases (str_eq id "count")) [
    | inr other ↦ (other, rw (get_commitment, other) at e)
    | inl counter ↦ elim (Bool-cases (t.count == 0)) [
      | inl unused ↦ absurd (none-ne-some c (rw (get_commitment, counter, unused) at e))
      | inr used ↦
          let empty : some (empty_commitment m) ≡ some c =
            rw (get_commitment, counter, used) at e in
          let closed : is_cancellable unset ≡ true =
            ap (λ q. is_cancellable q.status) (some_eq empty) ∙ h in
          cc
    ]
  ]

  module _ (t : Treasury S Int Decimal) (v : Backed bank config t) where
    abbrev After : {R : Type 0} → Treasury S Int Decimal × R → Type 0
    After x = Backed bank config x.0

    -- A commitment that is closed, with its tokens taken from the committed wallet or left there.
    closed-Backed :
        (id : String) (c q : Commitment Int Decimal) (n : ℕ) (s : S)
        → lookup id t.commitments ≡ some c
        → is_funded c.status ≡ true
        → numbers.read c.amount ≡ some n
        → q.commitment_id ≡ c.commitment_id
        → is_cancellable q.status ≡ false
        → bank.held t.bank config.committed_wallet_address "uftg"
          ≤ bank.held s config.committed_wallet_address "uftg" + n
        → Backed bank config (set_commitment q (record t { bank = s }))
    unfolding set_commitment
    closed-Backed id c q n s e f r name closed h =
        let there : q.commitment_id ≡ id = name ∙ (v.entries id c e).named in
        let found : lookup q.commitment_id t.commitments ≡ some c =
          ap (λ k. lookup k t.commitments) there ∙ e in
        let total = sum_of-insert (weight numbers.read) q.commitment_id q c t.commitments found in
        let before : weight numbers.read c ≡ n = rw (f, r) refl in
        let after : weight numbers.read q ≡ 0 =
          rw (not_cancellable-not_funded q.status closed) refl in
        let w = v.covered in
        record {
          entries =
              Entries-insert (Kept numbers.read) t.commitments q.commitment_id q v.entries
                (record { named = refl; is_open = λ o. absurd (true-ne-false (sym o ∙ closed)) });
          covered = omega arith;
        }

    sent_away :
        (to : String) (i : Int) (n : ℕ) (s : S)
        → numbers.read i ≡ some n
        → b.send_coins config.committed_wallet_address to "uftg" i t.bank ≡ some s
        → bank.held t.bank config.committed_wallet_address "uftg"
          ≤ bank.held s config.committed_wallet_address "uftg" + n
    sent_away to i n s r e = elim (Bool-cases (str_eq config.committed_wallet_address to)) [
      | inl same ↦
          let here : to ≡ config.committed_wallet_address =
            ground (arith, eq_iff config.committed_wallet_address to) in
          let e' =
            subst (λ a. b.send_coins config.committed_wallet_address a "uftg" i t.bank ≡ some s)
              here e in
          let kept =
            bank.send_coins-self config.committed_wallet_address "uftg" i n t.bank s r e' in
          omega arith
      | inr other ↦
          let moved =
            bank.send_coins-held config.committed_wallet_address to "uftg" i n t.bank s r e
              (ne_of_eq_false _ _ other) in
          let less = moved.0 in omega arith
    ]

    commit-Backed :
        (req : TransferToCommitted Int Decimal) (now : ℕ) (s : S)
        → b.send_coins config.minting_wallet_address config.committed_wallet_address "uftg"
            req.amount t.bank
          ≡ some s
        → Backed bank config (commit m req now t s).0
    unfolding commit set_commitment
    commit-Backed req now s e = elim (Option-cases (m.mul_int req.price_per_token req.amount)) [
      | inl overflow ↦ rw (commit, overflow) v
      | inr (product, fits) ↦ elim (Option-cases (numbers.read req.amount)) [
        | inl negative ↦ absurd (
            none-ne-some s
              (sym (bank.send_coins-negative _ _ "uftg" req.amount t.bank negative) ∙ e))
        | inr (n, r) ↦
            let moved = bank.send_coins-held _ _ "uftg" req.amount n t.bank s r e apart in
            let c = new_commitment m (commitment_id (add64 t.count 1)) req product now in
            let more = moved.1 in
            let total = sum_of-insert_le (weight numbers.read) c.commitment_id c t.commitments in
            let amount : weight numbers.read c ≡ n = rw r refl in
            let w = v.covered in
            rw (commit, fits)
              (record {
                entries =
                    Entries-insert (Kept numbers.read) t.commitments c.commitment_id c v.entries
                      (record { named = refl; is_open = λ o. (refl, n, r) });
                covered = omega arith;
              })
      ]
    ]

    moved_elsewhere :
        (i : Int) (s : S)
        → b.send_coins config.minting_wallet_address config.liquidity_wallet_address "uftg" i t.bank
          ≡ some s
        → Backed bank config (record t { bank = s })
    moved_elsewhere i s e = elim (Option-cases (numbers.read i)) [
      | inl negative ↦
          absurd (none-ne-some s (sym (bank.send_coins-negative _ _ "uftg" i t.bank negative) ∙ e))
      | inr (n, r) ↦
          let committed = config.committed_wallet_address in
          let liquidity = config.liquidity_wallet_address in
          let w = v.covered in
          elim (Bool-cases (str_eq liquidity committed)) [
            | inl same ↦
                let here : liquidity ≡ committed = ground (arith, eq_iff liquidity committed) in
                let e' =
                  subst (λ a. b.send_coins config.minting_wallet_address a "uftg" i t.bank ≡ some s)
                    here e in
                let moved = bank.send_coins-held _ _ "uftg" i n t.bank s r e' apart in
                let more = moved.1 in record { entries = v.entries; covered = omega arith }
            | inr other ↦
                let kept =
                  bank.send_coins-other _ _ "uftg" committed i n t.bank s r e (λ q. apart (sym q))
                    (λ q. ne_of_eq_false _ _ other (sym q)) in
                record { entries = v.entries; covered = omega arith }
          ]
    ]

    deliver-Backed :
        (req : DeliverCommitment) (now : ℕ) (c : Commitment Int Decimal)
        → get_commitment m req.commitment_id t ≡ some c
        → Backed bank config (deliver b config req now t c).0
    unfolding deliver
    deliver-Backed req now c e = elim (Bool-cases (is_funded c.status)) [
      | inr closed ↦ rw (deliver, closed) v
      | inl funds ↦
          let cancellable = is_funded-is_cancellable c.status funds in
          let (named, found) = get_commitment-lookup req.commitment_id t c e cancellable in
          let (_, n, r) = (v.entries req.commitment_id c found).is_open cancellable in
          rw (deliver, funds)
            (option_either After
              (b.send_coins config.committed_wallet_address req.destination_wallet "uftg" c.amount
                t.bank)
              v
              (λ s sent.
                closed-Backed req.commitment_id c (delivered_to req.destination_wallet now c) n s
                  found funds r refl refl (sent_away req.destination_wallet c.amount n s r sent)))
    ]

    cancel-Backed :
        (req : CancelCommitment) (c : Commitment Int Decimal)
        → get_commitment m req.commitment_id t ≡ some c
        → Backed bank config (cancel b config req t c).0
    unfolding cancel
    cancel-Backed req c e = elim (Bool-cases (is_cancellable c.status)) [
      | inr closed ↦ rw (cancel, closed) v
      | inl cancellable ↦
          let (named, found) = get_commitment-lookup req.commitment_id t c e cancellable in
          let (funds, n, r) = (v.entries req.commitment_id c found).is_open cancellable in
          rw (cancel, cancellable)
            (option_either After
              (b.send_coins config.committed_wallet_address config.minting_wallet_address "uftg"
                c.amount t.bank)
              v
              (λ s sent.
                closed-Backed req.commitment_id c (record c { status = cancelled }) n s found funds
                  r refl refl (sent_away config.minting_wallet_address c.amount n s r sent)))
    ]

    pub transfer_minting_to_committed-Backed :
        (sender : String) (req : TransferToCommitted Int Decimal) (now : ℕ)
        → Backed bank config (transfer_minting_to_committed m b config sender req now t).0
    unfolding transfer_minting_to_committed
    transfer_minting_to_committed-Backed sender req now =
        let P = After in
        if_either P (str_eq sender config.owner_address)
          (if_either P (m.int_lt (get_minting_balance b config t) req.amount) v (
            option_either P
              (b.send_coins config.minting_wallet_address config.committed_wallet_address "uftg"
                req.amount t.bank)
              v (commit-Backed req now)))
          v

    pub transfer_minting_to_liquidity-Backed :
        (sender : String) (req : TransferToLiquidity Int)
        → Backed bank config (transfer_minting_to_liquidity m b config sender req t).0
    unfolding transfer_minting_to_liquidity
    transfer_minting_to_liquidity-Backed sender req =
        let P = After in
        if_either P (str_eq sender config.owner_address)
          (if_either P (m.int_lt (get_minting_balance b config t) req.amount) v (
            option_either P
              (b.send_coins config.minting_wallet_address config.liquidity_wallet_address "uftg"
                req.amount t.bank)
              v (moved_elsewhere req.amount)))
          v

    pub deliver_commitment-Backed :
        (sender : String) (req : DeliverCommitment) (now : ℕ)
        → Backed bank config (deliver_commitment m b config sender req now t).0
    unfolding deliver_commitment
    deliver_commitment-Backed sender req now =
        let P = After in
        if_either P (str_eq sender config.owner_address)
          (option_either P (get_commitment m req.commitment_id t) v (deliver-Backed req now)) v

    pub cancel_commitment_op-Backed :
        (sender : String) (req : CancelCommitment)
        → Backed bank config (cancel_commitment_op m b config sender req t).0
    unfolding cancel_commitment_op
    cancel_commitment_op-Backed sender req =
        let P = After in
        if_either P (str_eq sender config.owner_address)
          (option_either P (get_commitment m req.commitment_id t) v (cancel-Backed req)) v
