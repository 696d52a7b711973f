-- ===== src/Examples/StateRuns.antt =====
-- State values, tokens and addresses (src/state.rs, src/operation.rs, src/issue.rs), computed.
use ultrasonic.Prelude.{
  ℕ, ◌^◌, ◌≤◌, ◌<◌, ◌≡◌, refl, true, [], ◌∷◌, arith, All, done, panicked, Bytes, IsByte, ok, zero,
  suc, ◌+◌,
}
use ultrasonic.State.Value.{StateValue, from_iter, into_iter}
use ultrasonic.State.Value.RoundTrip.{from_iter_exact}
use ultrasonic.State.Auth.{AuthToken, to_byte_array, replicate}
use ultrasonic.State.Auth.RoundTrip.{to_byte_array_exact}
use ultrasonic.Operation.{CellAddr}
use ultrasonic.Operation.Address.{from_bytes, to_bytes, IsAddr, IsArray34, address_bytes_exact}
use ultrasonic.Operation.Text.{addr_from_str, addr_to_string, addr_from_str-addr_to_string}
use ultrasonic.Baid64.{opid_text}
use ultrasonic.Examples.Texts.{baid64, texts}
use ultrasonic.Examples.Field.{field, field_laws, element_of, Element}

from_iter_exact_example :
    (5 ≤ 4
      → (v : StateValue ℕ) × (from_iter {Fe = ℕ} (1 ∷ 2 ∷ 3 ∷ 4 ∷ 5 ∷ []) ≡ done v)
        × (into_iter v ≡ 1 ∷ 2 ∷ 3 ∷ 4 ∷ 5 ∷ []))
    × (4 < 5 → from_iter {Fe = ℕ} (1 ∷ 2 ∷ 3 ∷ 4 ∷ 5 ∷ []) ≡ panicked)
from_iter_exact_example = from_iter_exact (1 ∷ 2 ∷ 3 ∷ 4 ∷ 5 ∷ [])

abbrev thirty : Bytes
thirty = replicate 30 255

byte : IsByte 255
byte = omega arith

All-replicate : (n : ℕ) → All IsByte (replicate n 255)
All-replicate zero = tt
All-replicate (suc n) = (byte, All-replicate n)

-- A token made from an element above the range.
abbrev large : AuthToken Element
large = record { fe = element_of (2 ^ 240 + 1) }

to_byte_array_exact_example : to_byte_array field true large ≡ panicked
to_byte_array_exact_example = (to_byte_array_exact field_laws true large).1 (omega arith)

abbrev addr : CellAddr
addr = record { opid = record { bytes = replicate 32 255 }; pos = 258 }

address_bytes_exact_example :
    (IsArray34 (to_bytes addr) × (from_bytes (to_bytes addr) ≡ addr))
    × (IsAddr (from_bytes (replicate 34 255))
        × (to_bytes (from_bytes (replicate 34 255)) ≡ replicate 34 255))
address_bytes_exact_example =
    address_bytes_exact addr (replicate 34 255) (refl, All-replicate 32, omega arith)
      (refl, All-replicate 34)

addr_from_str-addr_to_string_example :
    addr_from_str (opid_text baid64) (addr_to_string (opid_text baid64) addr) ≡ ok addr
addr_from_str-addr_to_string_example = addr_from_str-addr_to_string texts addr refl (omega arith)
