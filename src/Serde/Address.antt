-- ===== src/Serde/Address.antt =====
-- `Serialize` and `Deserialize` of `CellAddr` (src/operation.rs).
pub mod RoundTrip
use ultrasonic.Prelude.{ℕ, Bytes, if◌then◌else◌, Result}
use ultrasonic.Ids.{Opid}
use ultrasonic.Operation.{CellAddr, new}
use ultrasonic.Operation.Text.{OpidText, ParseAddrError, addr_from_str, addr_to_string}
use ultrasonic.Serde.{
  ScalarSerializer, ScalarDeserializer, Wrapped, ◌>>=◌, map_ok, map_err, wrapper_serialize,
  wrapper_deserialize,
}

-- A `Serializer` with its `SerializeTuple`, whose elements give `Item`.
pub record Serializer (Out Item Tuple Error : Type 0) : Type 0 where
  pub scalar : ScalarSerializer Bytes Out Error
  pub serialize_tuple : ℕ → Result Tuple Error
  pub serialize_element :
      Tuple → (ScalarSerializer Bytes Item Error → Result Item Error) → Result Tuple Error
  pub end : Tuple → Result Out Error

-- A `Deserializer` with `Deserialize` of a pair, which reads each part with a deserializer for it.
pub record Deserializer (Error : Type 0) : Type 1 where
  pub scalar : ScalarDeserializer Bytes Error
  pub pair :
      (A B : Type 0)
      → (ScalarDeserializer Bytes Error → Result A Error)
      → (ScalarDeserializer Bytes Error → Result B Error)
      → Result (A × B) Error

module _ {OpidError : Type 0} (text : OpidText OpidError) where
  -- `impl_serde_str_bin_wrapper!(Opid, Bytes32)`
  abbrev pub opid_wrapped : Wrapped Opid Bytes OpidError
  opid_wrapped = record {
    to_string = text.print;
    from_str = text.read;
    unwrap = λ opid. opid.bytes;
    wrap = λ bytes. record { bytes = bytes };
  }

  -- `Serialize for CellAddr`
  unfoldable pub addr_serialize :
      {Out Item Tuple Error : Type 0}
      → CellAddr
      → Serializer Out Item Tuple Error
      → Result Out Error
  addr_serialize addr serializer =
      if serializer.scalar.is_human_readable
      then serializer.scalar.serialize_str (addr_to_string text addr)
      else (do
        opened ← serializer.serialize_tuple 1
        first ← serializer.serialize_element opened (wrapper_serialize opid_wrapped addr.opid)
        second ← serializer.serialize_element first (λ item. item.serialize_u16 addr.pos)
        serializer.end second)

  -- `Deserialize for CellAddr`, with `D::Error::custom` of both errors
  unfoldable pub addr_deserialize :
      {Error : Type 0}
      → (OpidError → Error)
      → (ParseAddrError OpidError → Error)
      → Deserializer Error
      → Result CellAddr Error
  addr_deserialize custom_opid custom_addr deserializer =
      if deserializer.scalar.is_human_readable
      then deserializer.scalar.string >>= (λ s. map_err custom_addr (addr_from_str text s))
      else map_ok (λ ((opid, pos) : Opid × ℕ). new opid pos)
          (deserializer.pair Opid ℕ (wrapper_deserialize opid_wrapped custom_opid)
            (λ item. item.u16))
