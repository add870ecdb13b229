-- ===== src/Node/ChainState/Amounts.antt =====
-- The amounts of cmd/ftgd/chain_state.go as numbers: what holds while no amount is negative, and
-- what a negative amount does.
use native.Mathlib.Nat.{zero-add}
use ftg_chain.Base.{
  ℕ, ◌+◌, ◌*◌, ◌<◌, ◌≤◌, ◌≡◌, refl, false, List, [], ◌∷◌, String, arith, Bool-cases, inl, inr,
}
use ftg_chain.Base.Word.{word, half, IsNat63, add64, sub64, mul64, neg64, slt}
use ftg_chain.Base.Lists.{All}
use ftg_chain.Base.Time.{Time}
use ftg_chain.Base.Result.{ok, state_either}
use ftg_chain.Node.ChainState.{
  ChainState, Certificate, BurnEvent, new_chain_state, is_registered, tokens_uftg,
  mint_from_certificate, burn_tokens, burn_transaction, transfer_from_minting_to_committed,
  transfer_from_minting_to_liquidity,
}
use ftg_chain.Node.ChainState.History.{Call, mints, burns, commits, provides, step, run}

-- The amount of a call is not negative.
abbrev pub IsNonnegative : Call → Type 0
IsNonnegative (mints cert h t u) = IsNat63 cert.mwh_amount
IsNonnegative (burns event h t u) = IsNat63 event.amount
IsNonnegative (commits amount ref) = IsNat63 amount
IsNonnegative (provides amount) = IsNat63 amount

abbrev pub mwh_of : Call → ℕ
mwh_of (mints cert h t u) = cert.mwh_amount
mwh_of _ = 0

-- The MWh of all the mints that a history tries.
unfoldable pub mwh_tried : List Call → ℕ
mwh_tried [] = 0
mwh_tried (c ∷ calls) = mwh_of c + mwh_tried calls

-- The counters as numbers, with room for the tokens of `mwh` more MWh.
pub record InRange (mwh : ℕ) (cs : ChainState) : Type 0 where
  pub within : cs.total_minted + 100000000 * mwh < half
  pub supply : cs.total_supply + cs.total_burned ≡ cs.total_minted
  pub wallets :
      cs.treasury_minting + cs.treasury_committed + cs.treasury_liquidity ≡ cs.total_minted

tokens_uftg-exact : (mwh : ℕ) → 100000000 * mwh < half → tokens_uftg mwh ≡ 100000000 * mwh
unfolding tokens_uftg mul64
tokens_uftg-exact mwh h = omega arith

module _ (rest : ℕ) (cs : ChainState) where
  mint-InRange :
      (cert : Certificate) (h : ℕ) (t u : Time)
      → InRange (cert.mwh_amount + rest) cs
      → InRange rest (mint_from_certificate cert h t u cs).0
  unfolding mint_from_certificate add64
  mint-InRange cert h t u v =
      let w = v.within in
      let s = v.supply in
      let l = v.wallets in
      let exact = tokens_uftg-exact cert.mwh_amount (omega arith) in
      state_either (InRange rest) (is_registered cert.external_id cs.certificates) _ _
        (record { within = omega arith; supply = s; wallets = l })
        (record { within = omega arith; supply = omega arith; wallets = omega arith })

  burn-InRange :
      (event : BurnEvent) (h : ℕ) (t u : Time)
      → IsNat63 event.amount
      → InRange rest cs
      → InRange rest (burn_tokens event h t u cs).0
  unfolding burn_tokens add64 sub64
  burn-InRange event h t u n v =
      let w = v.within in
      let s = v.supply in
      elim (Bool-cases (slt cs.total_supply event.amount)) [
        | inl more ↦ rw more v
        | inr within ↦
            let enough : event.amount ≤ cs.total_supply = ground arith in
            rw within (record { within = w; supply = omega arith; wallets = v.wallets })
      ]

  -- A move out of the minting wallet takes what the wallet has.
  taken :
      (amount : ℕ)
      → IsNat63 amount
      → InRange rest cs
      → slt cs.treasury_minting amount ≡ false
      → amount ≤ cs.treasury_minting
  taken amount n v e = let w = v.within in let l = v.wallets in ground arith

  commit-InRange :
      (amount : ℕ) (ref : String)
      → IsNat63 amount
      → InRange rest cs
      → InRange rest (transfer_from_minting_to_committed amount ref cs).0
  unfolding transfer_from_minting_to_committed add64 sub64
  commit-InRange amount ref n v =
      let w = v.within in
      let l = v.wallets in
      elim (Bool-cases (slt cs.treasury_minting amount)) [
        | inl more ↦ rw more v
        | inr within ↦
            let enough = taken amount n v within in
            rw within (record { within = w; supply = v.supply; wallets = omega arith })
      ]

  provide-InRange :
      (amount : ℕ)
      → IsNat63 amount
      → InRange rest cs
      → InRange rest (transfer_from_minting_to_liquidity amount cs).0
  unfolding transfer_from_minting_to_liquidity add64 sub64
  provide-InRange amount n v =
      let w = v.within in
      let l = v.wallets in
      elim (Bool-cases (slt cs.treasury_minting amount)) [
        | inl more ↦ rw more v
        | inr within ↦
            let enough = taken amount n v within in
            rw within (record { within = w; supply = v.supply; wallets = omega arith })
      ]

step-InRange :
    (c : Call) (rest : ℕ) (cs : ChainState)
    → IsNonnegative c
    → InRange (mwh_of c + rest) cs
    → InRange rest (step c cs)
unfolding step
step-InRange (mints cert h t u) rest cs n v = mint-InRange rest cs cert h t u v
step-InRange (burns event h t u) rest cs n v = burn-InRange rest cs event h t u n (rw zero-add at v)
step-InRange (commits amount ref) rest cs n v =
    commit-InRange rest cs amount ref n (rw zero-add at v)
step-InRange (provides amount) rest cs n v = provide-InRange rest cs amount n (rw zero-add at v)

run-InRange :
    (calls : List Call) (cs : ChainState)
    → All IsNonnegative calls
    → InRange (mwh_tried calls) cs
    → InRange 0 (run calls cs)
unfolding run mwh_tried
run-InRange [] cs n v = v
run-InRange (c ∷ calls) cs n v =
    run-InRange calls (step c cs) n.1 (step-InRange c (mwh_tried calls) cs n.0 v)

-- After any history of calls with no negative amount, whose mints try fewer than 2 ^ 63 uftg in all,
-- no counter and no wallet has wrapped: as numbers, the supply and the burned total add up to the
-- minted total, and so do the three wallets, and it is below 2 ^ 63.
pub amounts_in_range :
    (calls : List Call)
    → All IsNonnegative calls
    → 100000000 * mwh_tried calls < half
    → let cs = run calls new_chain_state in
      (cs.total_supply + cs.total_burned ≡ cs.total_minted)
      × (cs.treasury_minting + cs.treasury_committed + cs.treasury_liquidity ≡ cs.total_minted)
      × (cs.total_minted < half)
amounts_in_range calls n room =
    let v =
      run-InRange calls new_chain_state n
        (record { within = omega arith; supply = refl; wallets = refl }) in
    let w = v.within in (v.supply, v.wallets, omega arith)

-- Where the supply and the amount without its sign add up to less than 2 ^ 63, a burn of a negative
-- amount succeeds, and raises the supply by the amount without its sign, with no certificate for it.
pub burn_tokens-negative :
    (event : BurnEvent) (h : ℕ) (t u : Time) (cs : ChainState)
    → half ≤ event.amount
    → event.amount < word
    → cs.total_supply + neg64 event.amount < half
    → let after = burn_tokens event h t u cs in
      (after.1 ≡ ok (burn_transaction event h u))
      × (after.0.total_supply ≡ cs.total_supply + neg64 event.amount)
      × (after.0.certificates ≡ cs.certificates)
unfolding burn_tokens sub64 neg64
burn_tokens-negative event h t u cs neg fits room =
    let allowed : slt cs.total_supply event.amount ≡ false = ground arith in
    rw allowed (refl, omega arith, refl)

-- A commitment of a negative amount moves tokens the other way, from the committed wallet, whatever
-- that wallet holds: the wallet is left with its balance less the amount without its sign, as an
-- int64 word.
pub transfer_negative :
    (amount : ℕ) (ref : String) (cs : ChainState)
    → half ≤ amount
    → amount < word
    → cs.treasury_minting + neg64 amount < half
    → let after = transfer_from_minting_to_committed amount ref cs in
      (after.1 ≡ ok tt)
      × (after.0.treasury_minting ≡ cs.treasury_minting + neg64 amount)
      × (after.0.treasury_committed ≡ sub64 cs.treasury_committed (neg64 amount))
unfolding transfer_from_minting_to_committed add64 sub64 neg64
transfer_negative amount ref cs neg fits room =
    let allowed : slt cs.treasury_minting amount ≡ false = ground arith in
    rw allowed (refl, omega arith, omega arith)
