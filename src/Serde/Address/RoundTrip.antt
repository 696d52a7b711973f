-- ===== src/Serde/Address/RoundTrip.antt =====
-- Where addresses in serde (src/operation.rs) round trip, and where they are not written at all.
use ultrasonic.Prelude.{
  ℕ, suc, ◌≡◌, ◌⊎◌, refl, Bytes, false, Bool-cases, inl, inr, Result, ok, err, IsU16, arith, length,
}
use ultrasonic.Ids.{Opid}
use ultrasonic.Operation.{CellAddr, new}
use ultrasonic.Operation.Text.{
  OpidText, OpidTextLaws, ParseAddrError, addr_to_string, addr_from_str-addr_to_string,
}
use ultrasonic.Serde.{
  ScalarSerializer, ScalarDeserializer, ScalarFormat, ◌>>=◌, wrapper_serialize, wrapper_deserialize,
}
use ultrasonic.Serde.Wrapper.{deserialize-serialize}
use ultrasonic.Serde.Address.{
  Serializer, Deserializer, opid_wrapped, addr_serialize, addr_deserialize,
}

-- What is written is written, and reads back as the value.
abbrev pub Carries :
    {Item Error A : Type 0}
    → ScalarSerializer Bytes Item Error
    → (Item → ScalarDeserializer Bytes Error)
    → (ScalarSerializer Bytes Item Error → Result Item Error)
    → (ScalarDeserializer Bytes Error → Result A Error)
    → A
    → Type 0
Carries {Item} ser de write read value =
    (item : Item) × (write ser ≡ ok item) × (read (de item) ≡ ok value)

-- A format whose tuples take two elements whatever length was declared, and read back as they were
-- written.
pub record IgnoresLength {Out Item Tuple Error : Type 0} (ser : Serializer Out Item Tuple Error)
    (de : Out → Deserializer Error) : Type 1 where
  pub scalar : ScalarFormat ser.scalar (λ out. (de out).scalar)
  pub item_ser : ScalarSerializer Bytes Item Error
  pub item_de : Item → ScalarDeserializer Bytes Error
  pub items : ScalarFormat item_ser item_de
  pub pair_lem :
      (n : ℕ) (A B : Type 0) (a : A) (b : B)
      (write : ScalarSerializer Bytes Item Error → Result Item Error)
      (read : ScalarDeserializer Bytes Error → Result A Error)
      (write' : ScalarSerializer Bytes Item Error → Result Item Error)
      (read' : ScalarDeserializer Bytes Error → Result B Error)
      → Carries item_ser item_de write read a
      → Carries item_ser item_de write' read' b
      → (out : Out) × ((ser.serialize_tuple n >>= (λ opened.
            ser.serialize_element opened write
            >>= (λ first. ser.serialize_element first write' >>= ser.end)))
          ≡ ok out)
        × ((de out).pair A B read read' ≡ ok (a, b))

-- A format that refuses an element beyond the declared length.
pub record CountsElements {Out Item Tuple Error : Type 0} (ser : Serializer Out Item Tuple Error)
    : Type 0 where
  pub room : Tuple → ℕ
  pub room-serialize_tuple :
      (n : ℕ) (tuple : Tuple) → ser.serialize_tuple n ≡ ok tuple → room tuple ≡ n
  pub room-serialize_element :
      (tuple tuple' : Tuple) (write : ScalarSerializer Bytes Item Error → Result Item Error)
      → ser.serialize_element tuple write ≡ ok tuple'
      → suc (room tuple') ≡ room tuple

module _ {OpidError : Type 0} {text : OpidText OpidError} (laws : OpidTextLaws text)
    {Error : Type 0} (custom_opid : OpidError → Error)
    (custom_addr : ParseAddrError OpidError → Error) where
  -- In a format that takes no notice of the length declared for a tuple, for humans or not, an address
  -- is written and reads back. Its operation id has 32 bytes, its position is a `u16`, and the texts of
  -- such ids read back and have no colon.
  pub addr_deserialize-addr_serialize :
      {Out Item Tuple : Type 0} {ser : Serializer Out Item Tuple Error}
      {de : Out → Deserializer Error} (format : IgnoresLength ser de) (addr : CellAddr)
      → length addr.opid.bytes ≡ 32
      → IsU16 addr.pos
      → (out : Out) × (addr_serialize text addr ser ≡ ok out)
        × (addr_deserialize text custom_opid custom_addr (de out) ≡ ok addr)
  unfolding addr_serialize addr_deserialize new
  addr_deserialize-addr_serialize {ser = ser} {de = de} format addr size small =
      elim (Bool-cases ser.scalar.is_human_readable) [
        | inl human ↦
            let (out, wrote, read) = format.scalar.str (addr_to_string text addr) in
            (
              out,
              rw human wrote,
              rw
                  (
                    format.scalar.readable out,
                    human,
                    read,
                    addr_from_str-addr_to_string laws addr size small,
                  )
                  refl,
            )
        | inr binary ↦
            let opid =
              deserialize-serialize (opid_wrapped text) custom_opid format.items addr.opid (record {
                from_str-to_string = laws.read-print addr.opid size;
                wrap-unwrap = refl;
              }) in
            let (out, wrote, read) =
              format.pair_lem 1 Opid ℕ addr.opid addr.pos
                (wrapper_serialize (opid_wrapped text) addr.opid)
                (wrapper_deserialize (opid_wrapped text) custom_opid)
                (λ item. item.serialize_u16 addr.pos) (λ item. item.u16) opid
                (format.items.u16 addr.pos small) in
            (out, rw binary wrote, rw (format.scalar.readable out, binary, read) refl)
      ]

Result-cases :
    {A Error : Type 0} (r : Result A Error) → ((a : A) × (r ≡ ok a)) ⊎ ((e : Error) × (r ≡ err e))
Result-cases (ok a) = inl (a, refl)
Result-cases (err e) = inr (e, refl)

module _ {Out Item Tuple Error OpidError : Type 0} {ser : Serializer Out Item Tuple Error}
    (counts : CountsElements ser) (text : OpidText OpidError) (addr : CellAddr) where
  -- A format that is not for humans and refuses an element beyond the length declared for a tuple fails
  -- on every address: the second of its two elements is beyond the length that is declared.
  pub addr_serialize-refused :
      ser.scalar.is_human_readable ≡ false → (e : Error) × (addr_serialize text addr ser ≡ err e)
  unfolding addr_serialize
  addr_serialize-refused binary = elim (Result-cases (ser.serialize_tuple 1)) [
    | inr (e, failed) ↦ (e, rw (binary, failed) refl)
    | inl (opened, h₁) ↦
        elim (Result-cases
          (ser.serialize_element opened (wrapper_serialize (opid_wrapped text) addr.opid))) [
            | inr (e, failed) ↦ (e, rw (binary, h₁, failed) refl)
            | inl (first, h₂) ↦
                elim (Result-cases
                  (ser.serialize_element first (λ item. item.serialize_u16 addr.pos))) [
                    | inr (e, failed) ↦ (e, rw (binary, h₁, h₂, failed) refl)
                    | inl (second, h₃) ↦ absurd (
                        omega (
                          arith,
                          counts.room-serialize_tuple 1 opened h₁,
                          counts.room-serialize_element _ _ _ h₂,
                          counts.room-serialize_element _ _ _ h₃,
                        ))
                  ]
          ]
  ]
