-- ===== src/Serde.antt =====
-- The serde implementations of src/macros.rs and src/operation.rs, over what they call of serde. A
-- serializer and a deserializer are records of those calls, each with its result.
pub mod Wrapper
pub mod Address
pub mod RawData
pub mod Token
use ultrasonic.Prelude.{ℕ, ◌≡◌, Bool, List, if◌then◌else◌, Result, ok, err, IsU16}

infixl 5 ◌>>=◌
abbrev pub ◌>>=◌ {ℓ κ ι} :
    {A : Type ℓ} {B : Type κ} {Error : Type ι}
    → Result A Error
    → (A → Result B Error)
    → Result B Error
err reason >>= rest = err reason
ok value >>= rest = rest value

-- `Result::map` and `Result::map_err`
abbrev pub map_ok : {A B Error : Type 0} → (A → B) → Result A Error → Result B Error
map_ok f (err reason) = err reason
map_ok f (ok value) = ok (f value)

abbrev pub map_err : {A Error Other : Type 0} → (Error → Other) → Result A Error → Result A Other
map_err f (err reason) = err (f reason)
map_err f (ok value) = ok value

-- A `Serializer` that gives `Out`: what `Serialize` of a text, of a `u16` and of the wrapped type
-- give with it.
pub record ScalarSerializer (Inner Out Error : Type 0) : Type 0 where
  pub is_human_readable : Bool
  pub serialize_str : List ℕ → Result Out Error
  pub serialize_u16 : ℕ → Result Out Error
  pub serialize_inner : Inner → Result Out Error

-- A `Deserializer`: what `Deserialize` of a text, of a `u16` and of the wrapped type give with it.
pub record ScalarDeserializer (Inner Error : Type 0) : Type 0 where
  pub is_human_readable : Bool
  pub string : Result (List ℕ) Error
  pub u16 : Result ℕ Error
  pub inner : Result Inner Error

-- A data format: all of it is written, and what is written reads back.
pub record ScalarFormat {Inner Out Error : Type 0} (ser : ScalarSerializer Inner Out Error)
    (de : Out → ScalarDeserializer Inner Error) : Type 0 where
  pub readable : (out : Out) → (de out).is_human_readable ≡ ser.is_human_readable
  pub str : (s : List ℕ) → (out : Out) × (ser.serialize_str s ≡ ok out) × ((de out).string ≡ ok s)
  pub u16 : (n : ℕ) → IsU16 n → (out : Out) × (ser.serialize_u16 n ≡ ok out) × ((de out).u16 ≡ ok n)
  pub inner : (v : Inner) → (out : Out) × (ser.serialize_inner v ≡ ok out) × ((de out).inner ≡ ok v)

-- What the macro uses of its type: `to_string`, `parse`, `self.0` and `Self`.
pub record Wrapped (T Inner ParseError : Type 0) : Type 0 where
  pub to_string : T → List ℕ
  pub from_str : List ℕ → Result T ParseError
  pub unwrap : T → Inner
  pub wrap : Inner → T

module _ {T Inner ParseError : Type 0} (wrapped : Wrapped T Inner ParseError) where
  -- `Serialize` of `impl_serde_str_bin_wrapper`
  unfoldable pub wrapper_serialize :
      {Out Error : Type 0} → T → ScalarSerializer Inner Out Error → Result Out Error
  wrapper_serialize value serializer =
      if serializer.is_human_readable
      then serializer.serialize_str (wrapped.to_string value)
      else serializer.serialize_inner (wrapped.unwrap value)

  -- `Deserialize` of `impl_serde_str_bin_wrapper`, with `D::Error::custom`
  unfoldable pub wrapper_deserialize :
      {Error : Type 0} → (ParseError → Error) → ScalarDeserializer Inner Error → Result T Error
  wrapper_deserialize custom deserializer =
      if deserializer.is_human_readable
      then deserializer.string >>= (λ s. map_err custom (wrapped.from_str s))
      else map_ok wrapped.wrap deserializer.inner
