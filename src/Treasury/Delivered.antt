-- ===== src/Treasury/Delivered.antt =====
-- Histories of x/treasury: its operations in any order, by any sender, between other transactions.
use mathlib.Core.Option.{none-ne-some}
use ftg_chain.Base.{
  ℕ, ◌≤◌, ◌≡◌, refl, ap, ◌∙◌, ◌≢◌, true, false, Option, some, String, arith, str_eq, eq_iff,
}
use ftg_chain.Base.Dict.{lookup, insert, lookup-insert_self}
use ftg_chain.Base.Sums.{sum_of, sum_of-insert}
use ftg_chain.Base.Result.{ok}
use ftg_chain.Sdk.Numbers.{Numbers, IsNumbers}
use ftg_chain.Sdk.Bank.{Bank, IsBank}
use ftg_chain.Treasury.Types.{
  delivered, Commitment, TreasuryConfig, TransferToCommitted, TransferToLiquidity,
  DeliverCommitment, CancelCommitment, Treasury, is_funded, new_treasury,
}
use ftg_chain.Treasury.Wallets.{
  set_commitment, get_commitment, deliver, delivered_to, transfer_minting_to_committed,
  transfer_minting_to_liquidity, deliver_commitment, cancel_commitment_op,
}
use ftg_chain.Treasury.Backed.{weight, Backed, is_funded-is_cancellable}
use ftg_chain.Treasury.Steps.{
  get_commitment-lookup, transfer_minting_to_committed-Backed, transfer_minting_to_liquidity-Backed,
  deliver_commitment-Backed, cancel_commitment_op-Backed,
}

-- The states that the operations reach from an empty store, whoever calls them, while no other
-- transaction lowers the balance of the committed wallet.
pub data Reached {S Int Decimal : Type 0} {read : Int → Option ℕ} (m : Numbers Int Decimal)
    {b : Bank S Int} (bank : IsBank read b) (config : TreasuryConfig)
    : Treasury S Int Decimal → Type 0 where
  begins : (s : S) → Reached m bank config (new_treasury s)
  commits :
      {t : Treasury S Int Decimal} (sender : String) (req : TransferToCommitted Int Decimal)
      (now : ℕ)
      → Reached m bank config t
      → Reached m bank config (transfer_minting_to_committed m b config sender req now t).0
  supplies :
      {t : Treasury S Int Decimal} (sender : String) (req : TransferToLiquidity Int)
      → Reached m bank config t
      → Reached m bank config (transfer_minting_to_liquidity m b config sender req t).0
  delivers :
      {t : Treasury S Int Decimal} (sender : String) (req : DeliverCommitment) (now : ℕ)
      → Reached m bank config t
      → Reached m bank config (deliver_commitment m b config sender req now t).0
  cancels :
      {t : Treasury S Int Decimal} (sender : String) (req : CancelCommitment)
      → Reached m bank config t
      → Reached m bank config (cancel_commitment_op m b config sender req t).0
  elsewhere :
      {t : Treasury S Int Decimal} (s : S)
      → bank.held t.bank config.committed_wallet_address "uftg"
        ≤ bank.held s config.committed_wallet_address "uftg"
      → Reached m bank config t
      → Reached m bank config (record t { bank = s })

module _ {S Int Decimal : Type 0} (m : Numbers Int Decimal) (numbers : IsNumbers m) (b : Bank S Int)
    (bank : IsBank numbers.read b) (config : TreasuryConfig)
    (apart : config.minting_wallet_address ≢ config.committed_wallet_address) where
  Reached-Backed : (t : Treasury S Int Decimal) → Reached m bank config t → Backed bank config t
  unfolding sum_of lookup
  Reached-Backed _ (begins s) = record {
    entries = λ id c e. absurd (none-ne-some c e);
    covered = omega arith;
  }
  Reached-Backed _ (commits {t = t} sender req now r) =
      transfer_minting_to_committed-Backed m numbers b bank config apart t (Reached-Backed t r)
        sender req now
  Reached-Backed _ (supplies {t = t} sender req r) =
      transfer_minting_to_liquidity-Backed m numbers b bank config apart t (Reached-Backed t r)
        sender req
  Reached-Backed _ (delivers {t = t} sender req now r) =
      deliver_commitment-Backed m numbers b bank config apart t (Reached-Backed t r) sender req now
  Reached-Backed _ (cancels {t = t} sender req r) =
      cancel_commitment_op-Backed m numbers b bank config apart t (Reached-Backed t r) sender req
  Reached-Backed _ (elsewhere {t = t} s h r) =
      let v = Reached-Backed t r in
      let w = v.covered in record { entries = v.entries; covered = omega arith }

  covers :
      (t : Treasury S Int Decimal)
      → Backed bank config t
      → (id : String) (c : Commitment Int Decimal) (n : ℕ) → lookup id t.commitments ≡ some c
      → is_funded c.status ≡ true
      → numbers.read c.amount ≡ some n
      → n ≤ bank.held t.bank config.committed_wallet_address "uftg"
  covers t v id c n found funds r =
      let q = record c { status = delivered } in
      let total = sum_of-insert (weight numbers.read) id q c t.commitments found in
      let before : weight numbers.read c ≡ n = rw (funds, r) refl in
      let w = v.covered in omega arith

  stored :
      (t : Treasury S Int Decimal) (s : S) (id : String) (c : Commitment Int Decimal)
      → str_eq id "count" ≡ false
      → c.commitment_id ≡ id
      → get_commitment m id (set_commitment c (record t { bank = s })) ≡ some c
  unfolding get_commitment set_commitment
  stored t s id c known name =
      rw (get_commitment, known)
        (ap (λ k. lookup id (insert k c t.commitments)) name
          ∙ lookup-insert_self id c t.commitments)

  -- Where the minting and the committed wallet are two, the bank and the numbers behave as documented,
  -- and only the keeper takes coins out of the committed wallet: in every state that is reached the
  -- committed wallet holds at least the sum of the funded commitments.
  pub commitments_covered :
      (t : Treasury S Int Decimal)
      → Reached m bank config t
      → sum_of (weight numbers.read) t.commitments
        ≤ bank.held t.bank config.committed_wallet_address "uftg"
  commitments_covered t r = (Reached-Backed t r).covered

  -- Where the minting and the committed wallet are two, the bank and the numbers behave as documented,
  -- and only the keeper takes coins out of the committed wallet: in every state that is reached the
  -- owner can deliver every funded commitment to any address. The call returns no error, the bank has moved the commitment's amount out of the committed wallet to that
  -- address, and the commitment is found as delivered there.
  pub deliver_commitment-delivered :
      (t : Treasury S Int Decimal) (id destination : String) (now : ℕ) (c : Commitment Int Decimal)
      → Reached m bank config t
      → get_commitment m id t ≡ some c
      → is_funded c.status ≡ true
      → (t' : Treasury S Int Decimal) × (deliver_commitment m b config config.owner_address
            (record { commitment_id = id; destination_wallet = destination })
            now
            t
          ≡ (t', ok tt))
        × (b.send_coins config.committed_wallet_address destination "uftg" c.amount t.bank
            ≡ some t'.bank)
        × (get_commitment m id t' ≡ some (delivered_to destination now c))
  unfolding deliver_commitment deliver set_commitment
  deliver_commitment-delivered t id destination now c reached e funds =
      let v = Reached-Backed t reached in
      let (known, found) =
        get_commitment-lookup m numbers b bank config apart id t c e
          (is_funded-is_cancellable c.status funds) in
      let kept = v.entries id c found in
      let (_, n, r) = kept.is_open (is_funded-is_cancellable c.status funds) in
      let enough = covers t v id c n found funds r in
      let (s, sent) = bank.send_coins-enough _ destination "uftg" c.amount n t.bank r enough in
      let owner : str_eq config.owner_address config.owner_address ≡ true =
        ground (arith, eq_iff config.owner_address config.owner_address) in
      (
        set_commitment (delivered_to destination now c) (record t { bank = s }),
        rw (deliver_commitment, owner, e, deliver, funds, sent) refl,
        sent,
        stored t s id (delivered_to destination now c) known kept.named,
      )
