-- ===== src/Node/ChainState/Registered.antt =====
-- The prevention of double mints in cmd/ftgd/chain_state.go.
use ftg_chain.Base.{
  ℕ, ◌≡◌, refl, ◌∙◌, true, false, ◌||◌, List, [], ◌∷◌, ◌++◌, String, arith, str_eq, eq_iff,
  Bool-cases, inl, inr,
}
use ftg_chain.Base.Time.{Time}
use ftg_chain.Base.Result.{err}
use ftg_chain.Base.Result.{state_either}
use ftg_chain.Base.Word.{slt}
use ftg_chain.Node.ChainState.{
  ChainState, Certificate, already_registered, new_chain_state, is_registered, minted_certificate,
  mint_from_certificate, burn_tokens, transfer_from_minting_to_committed,
  transfer_from_minting_to_liquidity,
}
use ftg_chain.Node.ChainState.History.{Call, mints, burns, commits, provides, step, run, run_keeps}

is_registered-append :
    (id : String) (certs : List Certificate) (c : Certificate)
    → is_registered id (certs ++ c ∷ []) ≡ is_registered id certs || str_eq c.external_id id
unfolding is_registered
is_registered-append id [] c = ground arith
is_registered-append id (d ∷ certs) c = ground (arith, is_registered-append id certs c)

-- No two certificates have the same external identifier.
pub Distinct : List Certificate → Type 0
Distinct [] = Unit
Distinct (c ∷ certs) = (is_registered c.external_id certs ≡ false) × Distinct certs

Distinct-append :
    (certs : List Certificate) (c : Certificate)
    → is_registered c.external_id certs ≡ false
    → Distinct certs
    → Distinct (certs ++ c ∷ [])
unfolding Distinct is_registered
Distinct-append [] c h d = (refl, tt)
Distinct-append (b ∷ certs) c h d = (
  ground (
    arith,
    is_registered-append b.external_id certs c,
    eq_iff b.external_id c.external_id,
    eq_iff c.external_id b.external_id,
    d.0,
  ),
  Distinct-append certs c (ground arith) d.1,
)

mint-Distinct :
    (cert : Certificate) (h : ℕ) (t u : Time) (cs : ChainState)
    → Distinct cs.certificates
    → Distinct (mint_from_certificate cert h t u cs).0.certificates
unfolding mint_from_certificate minted_certificate
mint-Distinct cert h t u cs d = elim (Bool-cases (is_registered cert.external_id cs.certificates)) [
  | inl old ↦ rw old d
  | inr new ↦ rw new (Distinct-append cs.certificates (minted_certificate cert h t) new d)
]

step-Distinct :
    (c : Call) (cs : ChainState) → Distinct cs.certificates → Distinct (step c cs).certificates
unfolding step burn_tokens transfer_from_minting_to_committed transfer_from_minting_to_liquidity
step-Distinct (mints cert h t u) cs d = mint-Distinct cert h t u cs d
step-Distinct (burns event h t u) cs d =
    state_either (λ (k : ChainState). Distinct k.certificates) (slt cs.total_supply event.amount) _
      _ d d
step-Distinct (commits amount ref) cs d =
    state_either (λ (k : ChainState). Distinct k.certificates) (slt cs.treasury_minting amount) _ _
      d d
step-Distinct (provides amount) cs d =
    state_either (λ (k : ChainState). Distinct k.certificates) (slt cs.treasury_minting amount) _ _
      d d

-- After any history of calls, no two certificates have the same external identifier.
pub certificates-Distinct : (calls : List Call) → Distinct (run calls new_chain_state).certificates
unfolding Distinct
certificates-Distinct calls =
    run_keeps (λ (cs : ChainState). Distinct cs.certificates) step-Distinct calls new_chain_state tt

-- A registered certificate stays registered.
step-is_registered :
    (id : String) (c : Call) (cs : ChainState)
    → is_registered id cs.certificates ≡ true
    → is_registered id (step c cs).certificates ≡ true
unfolding step mint_from_certificate burn_tokens transfer_from_minting_to_committed
    transfer_from_minting_to_liquidity
step-is_registered id (mints cert h t u) cs d =
    state_either (λ (k : ChainState). is_registered id k.certificates ≡ true)
      (is_registered cert.external_id cs.certificates) _ _ d
      (is_registered-append id cs.certificates (minted_certificate cert h t) ∙ rw d refl)
step-is_registered id (burns event h t u) cs d =
    state_either (λ (k : ChainState). is_registered id k.certificates ≡ true)
      (slt cs.total_supply event.amount) _ _ d d
step-is_registered id (commits amount ref) cs d =
    state_either (λ (k : ChainState). is_registered id k.certificates ≡ true)
      (slt cs.treasury_minting amount) _ _ d d
step-is_registered id (provides amount) cs d =
    state_either (λ (k : ChainState). is_registered id k.certificates ≡ true)
      (slt cs.treasury_minting amount) _ _ d d

minted-is_registered :
    (cert : Certificate) (h : ℕ) (t u : Time) (cs : ChainState)
    → is_registered cert.external_id (mint_from_certificate cert h t u cs).0.certificates ≡ true
unfolding mint_from_certificate minted_certificate
minted-is_registered cert h t u cs = ground (
  arith,
  is_registered-append cert.external_id cs.certificates (minted_certificate cert h t),
  eq_iff cert.external_id cert.external_id,
)

-- Once a mint has been tried for a certificate, and whatever calls follow, a mint for the same
-- external identifier is refused and changes nothing.
pub minted_once :
    (cert again : Certificate) (h h' : ℕ) (t u t' u' : Time) (cs : ChainState) (calls : List Call)
    → again.external_id ≡ cert.external_id
    → let later = run calls (mint_from_certificate cert h t u cs).0 in
      mint_from_certificate again h' t' u' later
      ≡ (later, err (already_registered again.external_id))
minted_once cert again h h' t u t' u' cs calls same =
    let kept : is_registered again.external_id
          (run calls (mint_from_certificate cert h t u cs).0).certificates
        ≡ true =
      run_keeps (λ (k : ChainState). is_registered again.external_id k.certificates ≡ true)
        (step-is_registered again.external_id) calls (mint_from_certificate cert h t u cs).0
        (rw same (minted-is_registered cert h t u cs)) in
    unfold mint_from_certificate in rw kept refl
