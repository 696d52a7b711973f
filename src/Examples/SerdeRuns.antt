-- ===== src/Examples/SerdeRuns.antt =====
-- Values in serde and in text (src/macros.rs, src/operation.rs, src/state.rs), computed.
use ultrasonic.Prelude.{
  ◌⊎◌, inl, inr, Result, ℕ, ◌≡◌, refl, true, false, List, [], ◌∷◌, ok, err, done, arith,
}
use ultrasonic.State.Auth.{AuthToken, replicate}
use ultrasonic.Operation.{CellAddr}
use ultrasonic.Serde.{ScalarSerializer, ScalarDeserializer, ScalarFormat}
use ultrasonic.Serde.Address.{addr_serialize, addr_deserialize}
use ultrasonic.Serde.Address.RoundTrip.{addr_deserialize-addr_serialize, addr_serialize-refused}
use ultrasonic.Baid64.{opid_text}
use ultrasonic.Serde.Token.{token_serialize, token_deserialize, token_deserialize-token_serialize}
use ultrasonic.Examples.Texts.{baid64, baid64-Baid64Laws, texts}
use ultrasonic.Examples.Field.{field, field_laws, element_of, Element}
use ultrasonic.Examples.Formats.{
  Item, lenient, reader, lenient-IgnoresLength, strict, strict-CountsElements,
}

abbrev addr : CellAddr
addr = record { opid = record { bytes = replicate 32 255 }; pos = 258 }

addr_deserialize-addr_serialize_example :
    (out : List Item) × (addr_serialize (opid_text baid64) addr (lenient false) ≡ ok out)
    × (addr_deserialize (opid_text baid64) (λ e. e) (λ e. tt) (reader false out) ≡ ok addr)
addr_deserialize-addr_serialize_example =
    addr_deserialize-addr_serialize texts (λ e. e) (λ e. tt) (lenient-IgnoresLength false) addr refl
      (omega arith)

addr_serialize-refused_example :
    (e : Unit {0}) × (addr_serialize (opid_text baid64) addr strict ≡ err e)
unfolding strict
addr_serialize-refused_example =
    addr_serialize-refused strict-CountsElements (opid_text baid64) addr refl

abbrev token : AuthToken Element
token = record { fe = element_of 258 }

-- The format writes field elements as they are.
abbrev element_ser : ScalarSerializer Element (List ℕ ⊎ Element) (Unit {0})
element_ser = record {
  is_human_readable = true;
  serialize_str = λ s. ok (inl s);
  serialize_u16 = λ n. ok (inl (n ∷ []));
  serialize_inner = λ x. ok (inr x);
}

string_of : List ℕ ⊎ Element → Result (List ℕ) (Unit {0})
string_of (inl s) = ok s
string_of (inr x) = err tt

number_of : List ℕ ⊎ Element → Result ℕ (Unit {0})
number_of (inl (n ∷ rest)) = ok n
number_of (inl []) = err tt
number_of (inr x) = err tt

element_from : List ℕ ⊎ Element → Result Element (Unit {0})
element_from (inl s) = err tt
element_from (inr x) = ok x

element_de : List ℕ ⊎ Element → ScalarDeserializer Element (Unit {0})
element_de out = record {
  is_human_readable = true;
  string = string_of out;
  u16 = number_of out;
  inner = element_from out;
}

elements : ScalarFormat element_ser element_de
unfolding element_de string_of number_of element_from
elements = record {
  readable = λ out. refl;
  str = λ s. (inl s, refl, refl);
  u16 = λ n h. (inl (n ∷ []), refl, refl);
  inner = λ x. (inr x, refl, refl);
}

token_deserialize-token_serialize_example :
    (out : List ℕ ⊎ Element) × (token_serialize baid64 field true token element_ser ≡ done (ok out))
    × (token_deserialize baid64 field (λ e. e) (element_de out) ≡ ok token)
token_deserialize-token_serialize_example =
    (token_deserialize-token_serialize baid64-Baid64Laws field_laws (λ e. e) elements true token).1
      refl (omega arith)
