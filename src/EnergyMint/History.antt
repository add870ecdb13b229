-- ===== src/EnergyMint/History.antt =====
-- Histories of x/energymint: mints, changes of the minters and of the parameters in any order, between
-- other transactions.
use mathlib.Core.Option.{none-ne-some}
use ftg_chain.Base.{
  ◌≡◌, refl, sym, ap, subst, ◌∙◌, inl, inr, not, ◌&&◌, Option, none, some, some_eq, Option-cases,
  Bool-cases, List, [], ◌∷◌, String, str_eq, if◌then◌else◌, else_none,
}
use ftg_chain.Base.Word.{add64}
use ftg_chain.Base.Dict.{lookup, lookup-insert, values, values-insert}
use ftg_chain.Base.Time.{Time}
use ftg_chain.Sdk.Numbers.{Numbers}
use ftg_chain.Sdk.MintBank.{MintBank}
use ftg_chain.Sdk.Tally.{tally, tally-append}
use ftg_chain.EnergyMint.Types.{
  Certificate, Params, Store, new_store, Error, not_a_minter, provenance_refused, ipfs_required,
  below_minimum, already_registered,
}
use ftg_chain.EnergyMint.Minting.{
  increment_total_minted, increment_total_backed_mwh, is_authorized_minter, is_accepted_provenance,
  add_authorized_minter, remove_authorized_minter, set_certificate, set_params, get_certificate,
  minted_certificate, tokens_to_mint, mint_error, recorded, certificate_id, mint_from_certificate,
}

pub data Call (S Int Decimal : Type 0) : Type 0 where
  mints : String → Certificate Int Decimal → String → Time → Call S Int Decimal
  adds_minter removes_minter : String → Call S Int Decimal
  sets_params : Params Decimal → Call S Int Decimal
  -- What the bank does elsewhere.
  elsewhere : S → Call S Int Decimal

module _ {Int Decimal : Type 0} where
  abbrev pub minted : Certificate Int Decimal → Option Int
  minted cert = some cert.minted_tokens

  abbrev pub mwh : Certificate Int Decimal → Option Decimal
  mwh cert = some cert.mwh_quantity

module _ {S Int Decimal : Type 0} (m : Numbers Int Decimal) where
  -- The totals are those of the stored certificates, and each was minted what its MWh are worth.
  pub record Backed (k : Store S Int Decimal) : Type 0 where
    pub total : tally m.int_add minted (m.new_int 0) (values k.certificates) ≡ some k.total_minted
    pub total_mwh :
        tally m.dec_add mwh (m.new_dec_with_prec 0 0) (values k.certificates)
        ≡ some k.total_backed_mwh
    pub worth :
        (id : String) (cert : Certificate Int Decimal)
        → get_certificate id k ≡ some cert
        → tokens_to_mint m cert.mwh_quantity ≡ some cert.minted_tokens

  -- A mint that passes the checks is the first for its certificate.
  mint_error-none :
      (sender : String) (cert : Certificate Int Decimal) (k : Store S Int Decimal)
      → mint_error m sender cert k ≡ none
      → lookup cert.external_id k.certificates ≡ none
  unfolding mint_error
  mint_error-none sender cert k e =
      first (lookup cert.external_id k.certificates) (already_registered cert.external_id) (
        else_none (m.dec_lt cert.mwh_quantity k.params.min_certificate_mwh)
          (below_minimum cert.mwh_quantity k.params.min_certificate_mwh) _
          (else_none (k.params.require_ipfs && str_eq cert.ipfs_hash "") ipfs_required _ (
            else_none
              (not (is_accepted_provenance k.params.accepted_provenance_types cert.provenance_type))
              (provenance_refused cert.provenance_type) _
              (else_none (not (is_authorized_minter sender k)) (not_a_minter sender) _ e))))
    where
      first :
          (o : Option (Certificate Int Decimal)) (y : Error Decimal)
          → (elim o [ some _ ↦ some y | none ↦ none ]) ≡ none
          → o ≡ none
      first none y h = refl
      first (some _) y h = absurd (none-ne-some _ (sym h))

  module _ (k : Store S Int Decimal) (v : Backed k) where
    stays : (s : S) → Backed (record k { bank = s })
    unfolding get_certificate
    stays s = record { total = v.total; total_mwh = v.total_mwh; worth = v.worth }

    recorded-Backed :
        (sender : String) (cert : Certificate Int Decimal) (recipient : String) (now : Time)
        (tokens : Int) (s : S)
        → lookup cert.external_id k.certificates ≡ none
        → tokens_to_mint m cert.mwh_quantity ≡ some tokens
        → Backed (recorded m sender cert recipient now tokens k s).0
    unfolding recorded set_certificate get_certificate increment_total_minted
        increment_total_backed_mwh
    recorded-Backed sender cert recipient now tokens s free worth =
        elim (Option-cases (m.int_add k.total_minted tokens)) [
          | inl over ↦ rw (recorded, over) v
          | inr (total, t) ↦ elim (Option-cases (m.dec_add k.total_backed_mwh cert.mwh_quantity)) [
            | inl over ↦ rw (recorded, t, over) v
            | inr (backed, d) ↦
                let q =
                  minted_certificate cert (certificate_id (add64 k.count 1)) tokens now sender in
                let behind = values-insert cert.external_id q k.certificates free in
                rw (recorded, t, d)
                  (record {
                    total =
                        ap (tally m.int_add minted (m.new_int 0)) behind
                        ∙ tally-append m.int_add minted _ _ (values k.certificates) q v.total
                        ∙ t;
                    total_mwh =
                        ap (tally m.dec_add mwh (m.new_dec_with_prec 0 0)) behind
                        ∙ tally-append m.dec_add mwh _ _ (values k.certificates) q v.total_mwh
                        ∙ d;
                    worth = λ id c e. elim (Bool-cases (str_eq cert.external_id id)) [
                      | inl same ↦
                          let stored : some q ≡ some c =
                            rw same at
                              (sym (lookup-insert cert.external_id id q k.certificates) ∙ e) in
                          subst (λ c. tokens_to_mint m c.mwh_quantity ≡ some c.minted_tokens)
                            (some_eq stored) worth
                      | inr other ↦ v.worth id c (
                          rw other at
                            (sym (lookup-insert cert.external_id id q k.certificates) ∙ e))
                    ];
                  })
          ]
        ]

module _ {S Int Decimal : Type 0} (m : Numbers Int Decimal) (b : MintBank S Int) where
  unfoldable pub step : Call S Int Decimal → Store S Int Decimal → Store S Int Decimal
  step (mints sender cert destination now) k =
      (mint_from_certificate m b sender cert destination now k).0
  step (adds_minter a) k = add_authorized_minter a k
  step (removes_minter a) k = remove_authorized_minter a k
  step (sets_params params) k = set_params params k
  step (elsewhere s) k = record k { bank = s }

  unfoldable pub run : List (Call S Int Decimal) → Store S Int Decimal → Store S Int Decimal
  unfolding step
  run [] k = k
  run (c ∷ cs) k = run cs (step c k)

  mint_from_certificate-Backed :
      (sender : String) (cert : Certificate Int Decimal) (destination : String) (now : Time)
      (k : Store S Int Decimal)
      → Backed m k
      → Backed m (mint_from_certificate m b sender cert destination now k).0
  unfolding mint_from_certificate
  mint_from_certificate-Backed sender cert destination now k v =
      let recipient = if str_eq destination "" then sender else destination in
      elim (Option-cases (mint_error m sender cert k)) [
        | inr (e, refused) ↦ rw (mint_from_certificate, refused) v
        | inl fine ↦ elim (Option-cases (tokens_to_mint m cert.mwh_quantity)) [
          | inl over ↦ rw (mint_from_certificate, fine, over) v
          | inr (tokens, worth) ↦
              elim (Option-cases (b.mint_coins "energymint" "uftg" tokens k.bank)) [
                | inl failed ↦ rw (mint_from_certificate, fine, worth, failed) v
                | inr (held, made) ↦
                    elim (Option-cases
                      (b.send_from_module "energymint" recipient "uftg" tokens held)) [
                        | inl unsent ↦
                            rw (mint_from_certificate, fine, worth, made, unsent) (stays m k v held)
                        | inr (s, sent) ↦
                            rw (mint_from_certificate, fine, worth, made, sent)
                              (recorded-Backed m k v sender cert recipient now tokens s
                                (mint_error-none m sender cert k fine) worth)
                      ]
              ]
        ]
      ]

  step-Backed :
      (c : Call S Int Decimal) (k : Store S Int Decimal) → Backed m k → Backed m (step c k)
  unfolding step add_authorized_minter remove_authorized_minter set_params get_certificate
  step-Backed (mints sender cert destination now) k v =
      mint_from_certificate-Backed sender cert destination now k v
  step-Backed (adds_minter a) k v = record {
    total = v.total;
    total_mwh = v.total_mwh;
    worth = v.worth;
  }
  step-Backed (removes_minter a) k v = record {
    total = v.total;
    total_mwh = v.total_mwh;
    worth = v.worth;
  }
  step-Backed (sets_params p) k v = record {
    total = v.total;
    total_mwh = v.total_mwh;
    worth = v.worth;
  }
  step-Backed (elsewhere s) k v = stays m k v s

  run-Backed :
      (cs : List (Call S Int Decimal)) (k : Store S Int Decimal) → Backed m k → Backed m (run cs k)
  unfolding run
  run-Backed [] k v = v
  run-Backed (c ∷ cs) k v = run-Backed cs (step c k) (step-Backed c k v)

  -- After any history of calls, mints that fail included, the tokens minted and the MWh that back them
  -- are the sums of those of the stored certificates, added in their order, and each certificate
  -- was minted 100 tokens of 1,000,000 uftg for a MWh, cut to a whole number of uftg.
  pub certificates-Backed :
      (s : S) (cs : List (Call S Int Decimal)) → Backed m (run cs (new_store m s))
  unfolding get_certificate lookup values tally
  certificates-Backed s cs =
      run-Backed cs (new_store m s)
        (record { total = refl; total_mwh = refl; worth = λ id c e. absurd (none-ne-some c e) })
