-- ===== src/Serde/Wrapper.antt =====
-- The macro `impl_serde_str_bin_wrapper` (src/macros.rs) reads what it writes.
use ultrasonic.Prelude.{◌≡◌, refl, Bool-cases, inl, inr, ok}
use ultrasonic.Serde.{
  ScalarSerializer, ScalarDeserializer, ScalarFormat, Wrapped, wrapper_serialize,
  wrapper_deserialize,
}

-- A value that is read back from its text and from what it wraps.
pub record ReadsBack {T Inner ParseError : Type 0} (wrapped : Wrapped T Inner ParseError)
    (value : T) : Type 0 where
  pub from_str-to_string : wrapped.from_str (wrapped.to_string value) ≡ ok value
  pub wrap-unwrap : wrapped.wrap (wrapped.unwrap value) ≡ value

-- In every format a value is written, as its text where the format is for humans and as what it wraps
-- elsewhere, and what is written reads back as that value. The value is read back from its text, and
-- the format writes and reads back texts and what is wrapped.
pub deserialize-serialize :
    {T Inner ParseError Out Error : Type 0} (wrapped : Wrapped T Inner ParseError)
    (custom : ParseError → Error) {ser : ScalarSerializer Inner Out Error}
    {de : Out → ScalarDeserializer Inner Error} (format : ScalarFormat ser de) (value : T)
    → ReadsBack wrapped value
    → (out : Out) × (wrapper_serialize wrapped value ser ≡ ok out)
      × (wrapper_deserialize wrapped custom (de out) ≡ ok value)
unfolding wrapper_serialize wrapper_deserialize
deserialize-serialize wrapped custom {ser} {de} format value back =
    elim (Bool-cases ser.is_human_readable) [
      | inl text ↦
          let (out, wrote, read) = format.str (wrapped.to_string value) in
          (out, rw text wrote, rw (format.readable out, text, read, back.from_str-to_string) refl)
      | inr binary ↦
          let (out, wrote, read) = format.inner (wrapped.unwrap value) in
          (out, rw binary wrote, rw (format.readable out, binary, read, back.wrap-unwrap) refl)
    ]
