-- ===== src/EnergyMint/Served.antt =====
-- Sequences of messages to x/energymint, between other transactions: each is one call of the keeper, or
-- none.
use ftg_chain.Base.{
  ◌≡◌, refl, sym, ap, subst, ◌∙◌, ◌⊎◌, inl, inr, Bool-cases, Option-cases, List, [], ◌∷◌, String,
  str_eq,
}
use ftg_chain.Base.Time.{Time}
use ftg_chain.Base.Result.{Result, ok, err}
use ftg_chain.Sdk.Numbers.{Numbers}
use ftg_chain.Sdk.MintBank.{MintBank}
use ftg_chain.Sdk.Texts.{Texts}
use ftg_chain.EnergyMint.Types.{MintResponse, Params, Store, Error, new_store}
use ftg_chain.EnergyMint.Minting.{mint_from_certificate, set_params}
use ftg_chain.EnergyMint.History.{
  Call, mints, adds_minter, removes_minter, sets_params, elsewhere, step, run, Backed,
  certificates-Backed,
}
use ftg_chain.EnergyMint.Messages.{
  MsgMintFromCertificate, MsgAddMinter, MsgRemoveMinter, requested_certificate, destination_of,
  mint_response, mint_requested, add_minter, remove_minter,
}

pub data Event (S Decimal : Type 0) : Type 0 where
  mint_message : MsgMintFromCertificate Decimal → Time → Event S Decimal
  add_message : MsgAddMinter → Event S Decimal
  remove_message : MsgRemoveMinter → Event S Decimal
  params_change : Params Decimal → Event S Decimal
  bank_changes : S → Event S Decimal

mint_response-state :
    {S Int Decimal : Type 0} (texts : Texts Int Decimal)
    (r : S × Result (Error Decimal) (MintResponse Int))
    → (mint_response texts r).0 ≡ r.0
unfolding mint_response
mint_response-state texts (k, ok e) = refl
mint_response-state texts (k, err e) = refl

module _ {S Int Decimal : Type 0} (texts : Texts Int Decimal) (m : Numbers Int Decimal)
    (b : MintBank S Int) (authority : String) where
  unfoldable pub happens : Event S Decimal → Store S Int Decimal → Store S Int Decimal
  happens (mint_message msg now) k = (mint_requested texts m b msg now k).0
  happens (add_message msg) k = (add_minter texts authority msg k).0
  happens (remove_message msg) k = (remove_minter texts authority msg k).0
  happens (params_change params) k = set_params params k
  happens (bank_changes s) k = record k { bank = s }

  unfoldable pub happen : List (Event S Decimal) → Store S Int Decimal → Store S Int Decimal
  unfolding happens
  happen [] k = k
  happen (e ∷ es) k = happen es (happens e k)

  abbrev OneCall : Store S Int Decimal → Store S Int Decimal → Type 0
  OneCall k k' = (k' ≡ k) ⊎ ((c : Call S Int Decimal) × (k' ≡ step m b c k))

  module _ (k : Store S Int Decimal) where
    mint_requested-OneCall :
        (msg : MsgMintFromCertificate Decimal) (now : Time)
        → OneCall k (mint_requested texts m b msg now k).0
    unfolding mint_requested step
    mint_requested-OneCall msg now = elim (Option-cases (texts.address_of msg.sender)) [
      | inl unread ↦ rw (mint_requested, unread) (inl refl)
      | inr (sender, a) ↦ elim (Option-cases (destination_of texts msg.destination_wallet)) [
        | inl unread ↦ rw (mint_requested, a, unread) (inl refl)
        | inr (destination, d) ↦
            let cert = requested_certificate m msg in
            rw (mint_requested, a, d)
              (inr (
                mints sender cert destination now,
                mint_response-state texts (mint_from_certificate m b sender cert destination now k),
              ))
      ]
    ]

    add_minter-OneCall : (msg : MsgAddMinter) → OneCall k (add_minter texts authority msg k).0
    unfolding add_minter step
    add_minter-OneCall msg = elim (Bool-cases (str_eq msg.authority authority)) [
      | inr other ↦ rw (add_minter, other) (inl refl)
      | inl known ↦ elim (Option-cases (texts.address_of msg.minter_address)) [
        | inl unread ↦ rw (add_minter, known, unread) (inl refl)
        | inr (minter, a) ↦ rw (add_minter, known, a) (inr (adds_minter minter, refl))
      ]
    ]

    remove_minter-OneCall :
        (msg : MsgRemoveMinter) → OneCall k (remove_minter texts authority msg k).0
    unfolding remove_minter step
    remove_minter-OneCall msg = elim (Bool-cases (str_eq msg.authority authority)) [
      | inr other ↦ rw (remove_minter, other) (inl refl)
      | inl known ↦ elim (Option-cases (texts.address_of msg.minter_address)) [
        | inl unread ↦ rw (remove_minter, known, unread) (inl refl)
        | inr (minter, a) ↦ rw (remove_minter, known, a) (inr (removes_minter minter, refl))
      ]
    ]

    happens-OneCall : (e : Event S Decimal) → OneCall k (happens e k)
    unfolding happens step
    happens-OneCall (mint_message msg now) = mint_requested-OneCall msg now
    happens-OneCall (add_message msg) = add_minter-OneCall msg
    happens-OneCall (remove_message msg) = remove_minter-OneCall msg
    happens-OneCall (params_change params) = inr (sets_params params, refl)
    happens-OneCall (bank_changes s) = inr (elsewhere s, refl)

  -- The events are a history of calls.
  happen-run :
      (es : List (Event S Decimal)) (k : Store S Int Decimal)
      → (cs : List (Call S Int Decimal)) × (happen es k ≡ run m b cs k)
  unfolding happen run
  happen-run [] k = ([], refl)
  happen-run (e ∷ es) k =
      let (cs, same) = happen-run es (happens e k) in
      elim (happens-OneCall k e) [
        | inl quiet ↦ (cs, same ∙ ap (run m b cs) quiet)
        | inr (c, called) ↦ (c ∷ cs, same ∙ ap (run m b cs) called)
      ]

  -- After any sequence of messages, changes of the parameters and other transactions, messages that
  -- fail included, the tokens minted and the MWh that back them are the sums of those of the stored
  -- certificates, added in their order, and each certificate was minted 100 tokens of 1,000,000 uftg
  -- for a MWh, cut to a whole number of uftg.
  pub served-Backed : (s : S) (es : List (Event S Decimal)) → Backed m (happen es (new_store m s))
  served-Backed s es =
      let (cs, same) = happen-run es (new_store m s) in
      subst (Backed m) (sym same) (certificates-Backed m b s cs)
