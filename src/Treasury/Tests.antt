-- ===== src/Treasury/Tests.antt =====
-- Runs of x/treasury on a bank of balances: a commitment, its delivery, and refusals.
use ftg_chain.Base.{ℕ, ◌≤◌, ◌≡◌, refl, ◌≢◌, some, ne_of_eq_false}
use ftg_chain.Base.Dict.{lookup, insert}
use ftg_chain.Base.Sums.{sum_of}
use ftg_chain.Base.Sprintf.{sprintf_unsigned}
use ftg_chain.Base.Word.{add64}
use ftg_chain.Base.Result.{ok, err}
use ftg_chain.Sdk.Simple.{
  Amount, positive, negative, value, numbers, numbers-IsNumbers, Balances, bank, bank-IsBank, send,
  move, put,
}
use ftg_chain.Treasury.Types.{
  Commitment, TreasuryConfig, TransferToCommitted, Treasury, new_treasury, unauthorized, not_funded,
  transfer_failed, unset,
}
use ftg_chain.Treasury.Wallets.{
  set_commitment, get_commitment, commit, deliver, delivered_to, new_commitment, commitment_id,
  transfer_minting_to_committed, deliver_commitment,
}
use ftg_chain.Treasury.Backed.{weight}
use ftg_chain.Treasury.Delivered.{
  Reached, begins, commits, commitments_covered, deliver_commitment-delivered,
}

abbrev config : TreasuryConfig
config = record {
  minting_wallet_address = "minting";
  committed_wallet_address = "committed";
  liquidity_wallet_address = "liquidity";
  owner_address = "owner";
}

apart : config.minting_wallet_address ≢ config.committed_wallet_address
apart = ne_of_eq_false "minting" "committed" refl

abbrev start : Balances
start = put "minting" "uftg" 1000 (λ a d. 0)

abbrev order : TransferToCommitted Amount ℕ
order = record { amount = positive 400; buyer_reference = "buyer"; price_per_token = 2000000 }

abbrev after : Treasury Balances Amount ℕ
after = (transfer_minting_to_committed numbers bank config "owner" order 5 (new_treasury start)).0

abbrev reached : Reached numbers bank-IsBank config after
reached = commits "owner" order 5 (begins start)

abbrev committed : Commitment Amount ℕ
committed = new_commitment numbers "FTG-COMMIT-000001" order 800000000 5

found : get_commitment numbers "FTG-COMMIT-000001" after ≡ some committed
unfolding get_commitment set_commitment transfer_minting_to_committed commit commitment_id
    sprintf_unsigned add64 lookup insert send move put
found = refl

backed : sum_of (weight {Decimal = ℕ} value) after.commitments ≡ 400
unfolding sum_of set_commitment transfer_minting_to_committed commit commitment_id sprintf_unsigned
    add64 insert send move put
backed = refl

refused :
    (transfer_minting_to_committed numbers bank config "buyer" order 5 (new_treasury start)).1
    ≡ err unauthorized
unfolding transfer_minting_to_committed
refused = refl

negative_refused :
    (transfer_minting_to_committed numbers bank config "owner"
      (record order { amount = negative 1 })
      5
      (new_treasury start)).1
    ≡ err transfer_failed
unfolding transfer_minting_to_committed send
negative_refused = refl

-- The counter is read as a commitment.
counter_found :
    (deliver_commitment numbers bank config "owner"
      (record { commitment_id = "count"; destination_wallet = "buyer" })
      9
      after).1
    ≡ err (not_funded "count" unset)
unfolding deliver_commitment get_commitment set_commitment transfer_minting_to_committed commit
    commitment_id sprintf_unsigned add64 insert send move put deliver
counter_found = refl

commitments_covered_example :
    sum_of (weight {Decimal = ℕ} value) after.commitments ≤ after.bank "committed" "uftg"
commitments_covered_example =
    commitments_covered numbers numbers-IsNumbers bank bank-IsBank config apart after reached

deliver_commitment-delivered_example :
    (t' : Treasury Balances Amount ℕ) × (deliver_commitment numbers bank config "owner"
        (record { commitment_id = "FTG-COMMIT-000001"; destination_wallet = "buyer" })
        9
        after
      ≡ (t', ok tt))
    × (send "committed" "buyer" "uftg" (positive 400) after.bank ≡ some t'.bank)
    × (get_commitment numbers "FTG-COMMIT-000001" t' ≡ some (delivered_to "buyer" 9 committed))
deliver_commitment-delivered_example =
    deliver_commitment-delivered numbers numbers-IsNumbers bank bank-IsBank config apart after
      "FTG-COMMIT-000001" "buyer" 9 committed reached found refl
