-- ===== src/Baid64/RoundTrip.antt =====
-- Ids and tokens are read back from their texts (src/operation.rs, src/issue.rs, src/codex.rs,
-- src/state.rs).
use ultrasonic.Prelude.{
  ◌≡◌, ◌≢◌, ◌<◌, ◌^◌, ◌≤◌, refl, ap, Bool, true, false, List, ℕ, ok, Bytes, done, panicked, All,
  length, arith,
}
use ultrasonic.Externals.{FieldApi, FieldLaws}
use ultrasonic.Ids.{ContractId, CodexId}
use ultrasonic.Operation.Text.{OpidTextLaws}
use ultrasonic.State.Auth.{AuthToken, to_byte_array}
use ultrasonic.State.Auth.RoundTrip.{from_byte_array-to_byte_array, to_byte_array_exact}
use ultrasonic.Serde.{map_ok}
use ultrasonic.Serde.Wrapper.{ReadsBack}
use ultrasonic.Baid64.{
  DisplayBaid64, Baid64, opid_form, contract_form, codex_form, token_form, opid_from_str,
  opid_to_string, opid_text, contract_id_from_str, contract_id_to_string, codex_id_from_str,
  codex_id_to_string, contract_id_wrapped, codex_id_wrapped, token_from_str, token_to_string,
}

-- What the crate documents: a payload of the length of the form reads back from its text, and a text
-- without the prefix has no colon.
pub record Baid64Laws {ParseError : Type 0} (api : Baid64 ParseError) : Type 0 where
  pub from_baid64_str-fmt_baid64 :
      (form : DisplayBaid64) (payload : Bytes)
      → length payload ≡ form.len
      → api.from_baid64_str form (api.fmt_baid64 form payload) ≡ ok payload
  pub fmt_baid64-plain :
      (form : DisplayBaid64) (payload : Bytes)
      → form.prefix ≡ false
      → All (λ c. c ≢ b':') (api.fmt_baid64 form payload)

-- A token that has bytes in a debug build has the same in every build.
same_in_builds :
    {Fe : Type 0} (field : FieldApi Fe) (debug : Bool) (token : AuthToken Fe) (b c : Bytes)
    → to_byte_array field debug token ≡ done b
    → to_byte_array field true token ≡ done c
    → to_byte_array field true token ≡ done b
unfolding to_byte_array
same_in_builds field true token b c h k = h
same_in_builds field false token b c h k = ground arith

module _ {ParseError : Type 0} {api : Baid64 ParseError} (laws : Baid64Laws api) where
  -- The texts of operation ids are what addresses need of them.
  pub opid_text-OpidTextLaws : OpidTextLaws (opid_text api)
  unfolding opid_from_str opid_to_string opid_form
  opid_text-OpidTextLaws = record {
    read-print = λ o h.
        ap (map_ok (λ b. record { bytes = b }))
          (laws.from_baid64_str-fmt_baid64 opid_form o.bytes h);
    print-plain = λ o. laws.fmt_baid64-plain opid_form o.bytes refl;
  }

  -- Contract and codex ids are read back, for serde, from their texts and from their bytes.
  pub id-ReadsBack :
      (contract_id : ContractId) (codex_id : CodexId)
      → length contract_id.bytes ≡ 32
      → length codex_id.bytes ≡ 32
      → ReadsBack (contract_id_wrapped api) contract_id × ReadsBack (codex_id_wrapped api) codex_id
  unfolding contract_id_wrapped codex_id_wrapped contract_id_from_str contract_id_to_string
      codex_id_from_str codex_id_to_string contract_form codex_form
  id-ReadsBack contract_id codex_id h k = (
    record {
      from_str-to_string =
          ap (map_ok (λ b. record { bytes = b }))
            (laws.from_baid64_str-fmt_baid64 contract_form contract_id.bytes h);
      wrap-unwrap = refl;
    },
    record {
      from_str-to_string =
          ap (map_ok (λ b. record { bytes = b }))
            (laws.from_baid64_str-fmt_baid64 codex_form codex_id.bytes k);
      wrap-unwrap = refl;
    },
  )

  module _ {Fe : Type 0} {field : FieldApi Fe} (field_laws : FieldLaws field) where
    -- A token below 2 ^ 240 has a text in every build, and is read back from it; from there on a debug
    -- build panics where the text is asked for. Field elements are taken to be read and written least
    -- significant byte first, and texts of payloads of 30 bytes to read back.
    pub token_from_str-token_to_string :
        (debug : Bool) (token : AuthToken Fe)
        → (field.to_u256 token.fe < 2 ^ 240
            → (s : List ℕ) × (token_to_string api field debug token ≡ done s)
              × (token_from_str api field s ≡ ok token))
          × (2 ^ 240 ≤ field.to_u256 token.fe → token_to_string api field true token ≡ panicked)
    unfolding token_from_str token_to_string token_form
    token_from_str-token_to_string debug token =
        let (written, broke, released) = to_byte_array_exact field_laws debug token in
        let (checked, _, _) = to_byte_array_exact field_laws true token in
        (
          λ small.
              let (b, wrote, size, value) = written small in
              let (c, wrote', size', value') = checked small in
              (
                api.fmt_baid64 token_form b,
                rw wrote refl,
                rw (laws.from_baid64_str-fmt_baid64 token_form b size) (
                    ap ok (
                      from_byte_array-to_byte_array field_laws token b
                        (same_in_builds field debug token b c wrote wrote'))),
              ),
          λ large. rw (broke large) refl,
        )
