-- ===== src/Baid64.antt =====
-- The texts of operation, contract and codex ids and of authority tokens (src/operation.rs,
-- src/issue.rs, src/codex.rs, src/state.rs), over the baid64 crate. Text is a list of code points.
pub mod RoundTrip
use Prim.Native.String.{String}
use ultrasonic.Prelude.{
  ℕ, Bool, true, false, Option, none, some, List, Result, Bytes, Partial, done, panicked,
}
use ultrasonic.Externals.{FieldApi}
use ultrasonic.Ids.{Opid, ContractId, CodexId}
use ultrasonic.Operation.Text.{OpidText}
use ultrasonic.State.Auth.{AuthToken, from_byte_array, to_byte_array}
use ultrasonic.Serde.{Wrapped, map_ok}

-- The constants of an implementation of `DisplayBaid64<LEN>`; one that is left out has the default of
-- the crate.
pub record DisplayBaid64 : Type 0 where
  pub len : ℕ
  pub hri : String
  pub chunking : Bool
  pub chunk_first : Option ℕ
  pub chunk_len : Option ℕ
  pub prefix : Bool
  pub embed_checksum : Bool
  pub mnemonic : Bool

-- `fmt_baid64` of a payload, with the flags of a plain `{}`, and `from_baid64_str` to a payload.
pub record Baid64 (ParseError : Type 0) : Type 0 where
  pub fmt_baid64 : DisplayBaid64 → Bytes → List ℕ
  pub from_baid64_str : DisplayBaid64 → List ℕ → Result Bytes ParseError

unfoldable pub opid_form : DisplayBaid64
opid_form = record {
  len = 32;
  hri = "usop";
  chunking = false;
  chunk_first = none;
  chunk_len = none;
  prefix = false;
  embed_checksum = false;
  mnemonic = false;
}

unfoldable pub contract_form : DisplayBaid64
contract_form = record {
  len = 32;
  hri = "contract";
  chunking = true;
  chunk_first = none;
  chunk_len = none;
  prefix = true;
  embed_checksum = false;
  mnemonic = false;
}

unfoldable pub codex_form : DisplayBaid64
codex_form = record {
  len = 32;
  hri = "codex";
  chunking = true;
  chunk_first = none;
  chunk_len = none;
  prefix = false;
  embed_checksum = false;
  mnemonic = true;
}

unfoldable pub token_form : DisplayBaid64
token_form = record {
  len = 30;
  hri = "at";
  chunking = true;
  chunk_first = some 8;
  chunk_len = some 8;
  prefix = true;
  embed_checksum = true;
  mnemonic = false;
}

module _ {ParseError : Type 0} (api : Baid64 ParseError) where
  -- `FromStr` and `Display` of the three ids
  unfoldable pub opid_from_str : List ℕ → Result Opid ParseError
  opid_from_str s = map_ok (λ b. record { bytes = b }) (api.from_baid64_str opid_form s)

  unfoldable pub opid_to_string : Opid → List ℕ
  opid_to_string opid = api.fmt_baid64 opid_form opid.bytes

  unfoldable pub contract_id_from_str : List ℕ → Result ContractId ParseError
  contract_id_from_str s = map_ok (λ b. record { bytes = b }) (api.from_baid64_str contract_form s)

  unfoldable pub contract_id_to_string : ContractId → List ℕ
  contract_id_to_string id = api.fmt_baid64 contract_form id.bytes

  unfoldable pub codex_id_from_str : List ℕ → Result CodexId ParseError
  codex_id_from_str s = map_ok (λ b. record { bytes = b }) (api.from_baid64_str codex_form s)

  unfoldable pub codex_id_to_string : CodexId → List ℕ
  codex_id_to_string id = api.fmt_baid64 codex_form id.bytes

  -- What addresses use of the ids.
  abbrev pub opid_text : OpidText ParseError
  opid_text = record { read = opid_from_str; print = opid_to_string }

  -- `impl_serde_str_bin_wrapper!(ContractId, Bytes32)` and `impl_serde_str_bin_wrapper!(CodexId, Bytes32)`
  unfoldable pub contract_id_wrapped : Wrapped ContractId Bytes ParseError
  contract_id_wrapped = record {
    to_string = contract_id_to_string;
    from_str = contract_id_from_str;
    unwrap = λ id. id.bytes;
    wrap = λ b. record { bytes = b };
  }

  unfoldable pub codex_id_wrapped : Wrapped CodexId Bytes ParseError
  codex_id_wrapped = record {
    to_string = codex_id_to_string;
    from_str = codex_id_from_str;
    unwrap = λ id. id.bytes;
    wrap = λ b. record { bytes = b };
  }

  module _ {Fe : Type 0} (field : FieldApi Fe) where
    shown : Partial Bytes → Partial (List ℕ)
    shown panicked = panicked
    shown (done payload) = done (api.fmt_baid64 token_form payload)

    -- `FromStr` and `Display for AuthToken`, whose payload panics where `to_byte_array` does.
    unfoldable pub token_from_str : List ℕ → Result (AuthToken Fe) ParseError
    token_from_str s = map_ok (from_byte_array field) (api.from_baid64_str token_form s)

    unfoldable pub token_to_string : Bool → AuthToken Fe → Partial (List ℕ)
    unfolding shown
    token_to_string debug token = shown (to_byte_array field debug token)
