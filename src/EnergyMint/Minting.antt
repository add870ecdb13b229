-- ===== src/EnergyMint/Minting.antt =====
-- The operations of x/energymint/keeper/keeper.go, over the bank keeper and the numbers of
-- cosmossdk.io/math. The reading of the clock is an argument; quantities are not nil.
use ftg_chain.Base.{
  ℕ, ◌&&◌, not, Bool, true, false, Option, none, some, List, [], ◌∷◌, String, str_eq, if◌then◌else◌,
}
use ftg_chain.Base.Word.{add64}
use ftg_chain.Base.Dict.{lookup, insert, delete}
use ftg_chain.Base.Sprintf.{sprintf_unsigned}
use ftg_chain.Base.Time.{Time}
use ftg_chain.Base.Result.{Result, ok, err}
use ftg_chain.Sdk.Numbers.{Numbers}
use ftg_chain.Sdk.MintBank.{MintBank}
use ftg_chain.EnergyMint.Types.{
  Certificate, active, MintResponse, Params, Store, Error, not_a_minter, provenance_refused,
  already_registered, ipfs_required, mint_failed, send_failed, overflowed, below_minimum,
}

unfoldable pub certificate_id : ℕ → String
unfolding sprintf_unsigned
certificate_id = sprintf_unsigned "FTG-CERT-" 6

-- isAcceptedProvenance
unfoldable pub is_accepted_provenance : List String → String → Bool
is_accepted_provenance [] ptype = false
is_accepted_provenance (a ∷ accepted) ptype =
    if str_eq a ptype then true else is_accepted_provenance accepted ptype

module _ {S Int Decimal : Type 0} where
  -- IsAuthorizedMinter
  unfoldable pub is_authorized_minter : String → Store S Int Decimal → Bool
  is_authorized_minter a k = elim (lookup a k.authorized_minters) [ none ↦ false | some _ ↦ true ]

  -- AddAuthorizedMinter
  unfoldable pub add_authorized_minter : String → Store S Int Decimal → Store S Int Decimal
  add_authorized_minter a k = record k { authorized_minters = insert a tt k.authorized_minters }

  -- RemoveAuthorizedMinter
  unfoldable pub remove_authorized_minter : String → Store S Int Decimal → Store S Int Decimal
  remove_authorized_minter a k = record k { authorized_minters = delete a k.authorized_minters }

  -- GetCertificate
  unfoldable pub get_certificate : String → Store S Int Decimal → Option (Certificate Int Decimal)
  get_certificate external_id k = lookup external_id k.certificates

  -- SetCertificate
  unfoldable pub set_certificate :
      Certificate Int Decimal → Store S Int Decimal → Store S Int Decimal
  set_certificate cert k = record k { certificates = insert cert.external_id cert k.certificates }

  -- SetParams
  unfoldable pub set_params : Params Decimal → Store S Int Decimal → Store S Int Decimal
  set_params params k = record k { params = params }

-- The certificate as it is stored.
abbrev pub minted_certificate :
    {Int Decimal : Type 0}
    → Certificate Int Decimal
    → String
    → Int
    → Time
    → String
    → Certificate Int Decimal
minted_certificate cert id tokens now sender = record cert {
  certificate_id = id;
  minted_tokens = tokens;
  mint_timestamp = now;
  owner = sender;
  status = active;
}

module _ {Int Decimal : Type 0} (m : Numbers Int Decimal) where
  -- 1 MWh is 100 tokens, and a token 1,000,000 uftg.
  unfoldable pub tokens_to_mint : Decimal → Option Int
  tokens_to_mint mwh = elim (m.mul_int64 mwh 100) [
    | none ↦ none
    | some tokens ↦ elim (m.mul_int64 tokens 1000000) [
      | none ↦ none
      | some uftg ↦ m.truncate_int uftg
    ]
  ]

  module _ {S : Type 0} where
    -- The checks of MintFromCertificate, in the order of the source.
    unfoldable pub mint_error :
        String → Certificate Int Decimal → Store S Int Decimal → Option (Error Decimal)
    unfolding is_authorized_minter is_accepted_provenance get_certificate
    mint_error sender cert k =
        if not (is_authorized_minter sender k)
        then some (not_a_minter sender)
        else if not (is_accepted_provenance k.params.accepted_provenance_types cert.provenance_type)
        then some (provenance_refused cert.provenance_type)
        else if k.params.require_ipfs && str_eq cert.ipfs_hash ""
        then some ipfs_required
        else if m.dec_lt cert.mwh_quantity k.params.min_certificate_mwh
        then some (below_minimum cert.mwh_quantity k.params.min_certificate_mwh)
        else elim (lookup cert.external_id k.certificates) [
          | some _ ↦ some (already_registered cert.external_id)
          | none ↦ none
        ]

    -- IncrementTotalMinted and IncrementTotalBackedMwh
    unfoldable pub increment_total_minted : Int → Store S Int Decimal → Option (Store S Int Decimal)
    increment_total_minted amount k = elim (m.int_add k.total_minted amount) [
      | none ↦ none
      | some total ↦ some (record k { total_minted = total })
    ]

    unfoldable pub increment_total_backed_mwh :
        Decimal → Store S Int Decimal → Option (Store S Int Decimal)
    increment_total_backed_mwh amount k = elim (m.dec_add k.total_backed_mwh amount) [
      | none ↦ none
      | some total ↦ some (record k { total_backed_mwh = total })
    ]

    -- The record and the totals of tokens that are minted and sent.
    unfoldable pub recorded :
        String
        → Certificate Int Decimal
        → String
        → Time
        → Int
        → Store S Int Decimal
        → S
        → Store S Int Decimal × Result (Error Decimal) (MintResponse Int)
    unfolding set_certificate certificate_id increment_total_minted increment_total_backed_mwh
    recorded sender cert recipient now tokens k s =
        let count = add64 k.count 1 in
        let stored = minted_certificate cert (certificate_id count) tokens now sender in
        let known = set_certificate stored (record k { bank = s; count = count }) in
        elim (increment_total_minted tokens known) [
          | none ↦ (k, err overflowed)
          | some counted ↦ elim (increment_total_backed_mwh cert.mwh_quantity counted) [
            | none ↦ (k, err overflowed)
            | some backed ↦ (
              backed,
              ok (record {
                certificate_id = stored.certificate_id;
                tokens_minted = tokens;
                recipient = recipient;
                tx_hash = "";
              }),
            )
          ]
        ]

    module _ (b : MintBank S Int) where
      -- MintFromCertificate. Tokens that are not sent stay with the module.
      unfoldable pub mint_from_certificate :
          String
          → Certificate Int Decimal
          → String
          → Time
          → Store S Int Decimal
          → Store S Int Decimal × Result (Error Decimal) (MintResponse Int)
      unfolding mint_error tokens_to_mint recorded
      mint_from_certificate sender cert destination now k = elim (mint_error sender cert k) [
        | some e ↦ (k, err e)
        | none ↦ elim (tokens_to_mint cert.mwh_quantity) [
          | none ↦ (k, err overflowed)
          | some tokens ↦ elim (b.mint_coins "energymint" "uftg" tokens k.bank) [
            | none ↦ (k, err mint_failed)
            | some minted ↦
                let recipient = if str_eq destination "" then sender else destination in
                elim (b.send_from_module "energymint" recipient "uftg" tokens minted) [
                  | none ↦ (record k { bank = minted }, err send_failed)
                  | some s ↦ recorded sender cert recipient now tokens k s
                ]
          ]
        ]
      ]
