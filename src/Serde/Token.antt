-- ===== src/Serde/Token.antt =====
-- `impl_serde_str_bin_wrapper!(AuthToken, fe256)` of src/state.rs: the macro of src/macros.rs where
-- `to_string` may panic.
use ultrasonic.Prelude.{
  ℕ, ◌^◌, ◌≤◌, ◌<◌, ◌≡◌, refl, ap, Bool, true, false, List, if◌then◌else◌, Result, ok, Partial,
  done, panicked,
}
use ultrasonic.Externals.{FieldApi, FieldLaws}
use ultrasonic.State.Auth.{AuthToken}
use ultrasonic.Serde.{ScalarSerializer, ScalarDeserializer, ScalarFormat, ◌>>=◌, map_ok, map_err}
use ultrasonic.Baid64.{Baid64, token_from_str, token_to_string}
use ultrasonic.Baid64.RoundTrip.{Baid64Laws, token_from_str-token_to_string}

module _ {ParseError Fe Error : Type 0} (api : Baid64 ParseError) (field : FieldApi Fe) where
  written :
      {Out : Type 0} → ScalarSerializer Fe Out Error → Partial (List ℕ) → Partial (Result Out Error)
  written serializer panicked = panicked
  written serializer (done s) = done (serializer.serialize_str s)

  unfoldable pub token_serialize :
      {Out : Type 0}
      → Bool
      → AuthToken Fe
      → ScalarSerializer Fe Out Error
      → Partial (Result Out Error)
  unfolding written
  token_serialize debug token serializer =
      if serializer.is_human_readable
      then written serializer (token_to_string api field debug token)
      else done (serializer.serialize_inner token.fe)

  unfoldable pub token_deserialize :
      (ParseError → Error) → ScalarDeserializer Fe Error → Result (AuthToken Fe) Error
  token_deserialize custom deserializer =
      if deserializer.is_human_readable
      then deserializer.string >>= (λ s. map_err custom (token_from_str api field s))
      else map_ok (λ fe. record { fe = fe }) deserializer.inner

module _ {ParseError Fe Out Error : Type 0} {api : Baid64 ParseError} (laws : Baid64Laws api)
    {field : FieldApi Fe} (field_laws : FieldLaws field) (custom : ParseError → Error)
    {ser : ScalarSerializer Fe Out Error} {de : Out → ScalarDeserializer Fe Error}
    (format : ScalarFormat ser de) (debug : Bool) (token : AuthToken Fe) where
  -- In a format that is not for humans every token is written and reads back. In one for humans a token
  -- below 2 ^ 240 does, in every build, and from there on a debug build panics. Formats write and read
  -- back texts and field elements, which are taken to be read and written least significant byte first,
  -- and texts of payloads of 30 bytes to read back.
  pub token_deserialize-token_serialize :
      (ser.is_human_readable ≡ false
        → (out : Out) × (token_serialize api field debug token ser ≡ done (ok out))
          × (token_deserialize api field custom (de out) ≡ ok token))
      × (ser.is_human_readable ≡ true
          → field.to_u256 token.fe < 2 ^ 240
          → (out : Out) × (token_serialize api field debug token ser ≡ done (ok out))
            × (token_deserialize api field custom (de out) ≡ ok token))
      × (ser.is_human_readable ≡ true
          → 2 ^ 240 ≤ field.to_u256 token.fe
          → token_serialize api field true token ser ≡ panicked)
  unfolding token_serialize token_deserialize written
  token_deserialize-token_serialize =
      let (small, large) = token_from_str-token_to_string laws field_laws debug token in
      (
        λ binary.
            let (out, wrote, read) = format.inner token.fe in
            (out, rw binary (ap done wrote), rw (format.readable out, binary, read) refl),
        λ human fits.
            let (s, shown, back) = small fits in
            let (out, wrote, read) = format.str s in
            (
              out,
              rw (human, shown) (ap done wrote),
              rw (format.readable out, human, read, back) refl,
            ),
        λ human big. rw (human, large big) refl,
      )
