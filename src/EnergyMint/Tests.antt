-- ===== src/EnergyMint/Tests.antt =====
-- Runs of x/energymint on a bank of balances.
use ftg_chain.Base.{ℕ, ◌≡◌, refl, none, some, List, [], ◌∷◌, str_eq, if◌then◌else◌}
use ftg_chain.Base.Dict.{lookup, insert, delete}
use ftg_chain.Base.Sprintf.{sprintf_unsigned}
use ftg_chain.Base.Word.{add64}
use ftg_chain.Sdk.Simple.{Amount, positive, numbers, Balances, mint_bank, send, move, put, create}
use ftg_chain.EnergyMint.Types.{Certificate, unset, Store, new_store}
use ftg_chain.EnergyMint.Minting.{
  is_authorized_minter, is_accepted_provenance, add_authorized_minter, remove_authorized_minter,
  set_certificate, get_certificate, tokens_to_mint, mint_error, recorded, increment_total_minted,
  increment_total_backed_mwh, certificate_id, mint_from_certificate,
}
use ftg_chain.EnergyMint.History.{Call, mints, adds_minter, removes_minter, step, run, Backed}
use ftg_chain.EnergyMint.Messages.{
  MsgMintFromCertificate, mint_requested, destination_of, mint_response, add_minter,
}
use ftg_chain.EnergyMint.Served.{Event, mint_message, add_message, happen, happens, served-Backed}
use ftg_chain.Sdk.Texts.{Texts}

abbrev rec : Certificate Amount ℕ
rec = record {
  certificate_id = "";
  external_id = "REC-1";
  source = "wind";
  mwh_quantity = 3;
  generation_date = 1;
  purchase_date = 2;
  ipfs_hash = "Qm";
  provenance_type = "proof_of_purchase";
  minted_tokens = positive 0;
  mint_timestamp = 0;
  owner = "";
  status = unset;
}

abbrev start : Store Balances Amount ℕ
start = new_store numbers (λ a d. 0)

-- A mint, the same again, and one by a minter that was removed.
abbrev calls : List (Call Balances Amount ℕ)
calls =
    adds_minter "minter"
    ∷ mints "minter" rec "" 5
    ∷ mints "minter" rec "buyer" 6
    ∷ removes_minter "minter"
    ∷ mints "minter" (record rec { external_id = "REC-2" }) "" 7
    ∷ []

abbrev after : Store Balances Amount ℕ
after = run numbers mint_bank calls start

three_mwh : after.total_minted ≡ positive 300000000
unfolding run step mint_from_certificate mint_error tokens_to_mint recorded increment_total_minted
    increment_total_backed_mwh set_certificate certificate_id is_authorized_minter
    is_accepted_provenance add_authorized_minter remove_authorized_minter lookup insert delete add64
    sprintf_unsigned send move put create get_certificate
three_mwh = refl

credited : after.bank "minter" "uftg" ≡ 300000000
unfolding run step mint_from_certificate mint_error tokens_to_mint recorded increment_total_minted
    increment_total_backed_mwh set_certificate certificate_id is_authorized_minter
    is_accepted_provenance add_authorized_minter remove_authorized_minter lookup insert delete add64
    sprintf_unsigned send move put create get_certificate
credited = refl

abbrev texts : Texts Amount ℕ
texts = record {
  address_of = λ s. if str_eq s "?" then none else some s;
  int_of = λ s. none;
  dec_of = λ s. none;
  show_address = λ a. a;
  show_int = λ i. "shown";
  show_dec = λ d. "shown";
}

abbrev request : MsgMintFromCertificate ℕ
request = record {
  sender = "minter";
  external_id = "REC-1";
  source = "wind";
  mwh_quantity = 3;
  generation_date = 1;
  purchase_date = 2;
  ipfs_hash = "Qm";
  provenance_type = "proof_of_purchase";
  destination_wallet = "buyer";
}

-- A minter that is no address, one of the authority, its mint, and a mint to no address.
abbrev events : List (Event Balances ℕ)
events =
    add_message (record { authority = "gov"; minter_address = "?" })
    ∷ add_message (record { authority = "gov"; minter_address = "minter" })
    ∷ mint_message request 5
    ∷ mint_message (record request { external_id = "REC-2"; destination_wallet = "?" }) 6
    ∷ []

abbrev served : Store Balances Amount ℕ
served = happen texts numbers mint_bank "gov" events start

bought : served.bank "buyer" "uftg" ≡ 300000000
unfolding happen happens mint_requested destination_of mint_response add_minter
    mint_from_certificate mint_error tokens_to_mint recorded increment_total_minted
    increment_total_backed_mwh set_certificate certificate_id is_authorized_minter
    is_accepted_provenance add_authorized_minter lookup insert add64 sprintf_unsigned send move put
    create get_certificate
bought = refl

served-Backed_example : Backed numbers served
served-Backed_example = served-Backed texts numbers mint_bank "gov" (λ a d. 0) events
