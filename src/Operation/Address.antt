-- ===== src/Operation/Address.antt =====
-- The 34 bytes of a `CellAddr` (src/operation.rs): the operation id, then the position as a
-- little-endian `u16`.
use ultrasonic.Prelude.{
  All-append, All-drop, All-take, length-take_le, ℕ, ◌+◌, ◌*◌, ◌/◌, ◌%◌, ◌≡◌, ap, ◌∙◌, [], ◌∷◌,
  ◌++◌, arith, length, take, drop, All, Bytes, IsByte, IsU16, take-append-drop, take-length_append,
  drop-length_append, length-drop, length-append, le_value,
}
use ultrasonic.Ids.{Opid}
use ultrasonic.Operation.{CellAddr, new}

-- `u16::to_le_bytes` and `u16::from_le_bytes`
unfoldable pub u16_to_le_bytes : ℕ → Bytes
u16_to_le_bytes n = (n % 256) ∷ (n / 256 % 256) ∷ []

unfoldable pub u16_from_le_bytes : Bytes → ℕ
unfolding le_value
u16_from_le_bytes bytes = le_value bytes

-- `From<[u8; 34]> for CellAddr`
unfoldable pub from_bytes : Bytes → CellAddr
unfolding new u16_from_le_bytes
from_bytes value =
    let opid : Opid = record { bytes = take 32 value } in
    new opid (u16_from_le_bytes (take 2 (drop 32 value)))

-- `From<CellAddr> for [u8; 34]`: the two halves of a zeroed buffer of 34 are written.
unfoldable pub to_bytes : CellAddr → Bytes
unfolding u16_to_le_bytes
to_bytes value = value.opid.bytes ++ u16_to_le_bytes value.pos

-- An address with a 32-byte operation id is written as 34 bytes and read back from them.
from_bytes-to_bytes :
    (addr : CellAddr)
    → length addr.opid.bytes ≡ 32
    → IsU16 addr.pos
    → (length (to_bytes addr) ≡ 34) × (from_bytes (to_bytes addr) ≡ addr)
unfolding from_bytes to_bytes
from_bytes-to_bytes addr l p =
    let tail : Bytes = (addr.pos % 256) ∷ (addr.pos / 256 % 256) ∷ [] in
    let value : addr.pos % 256 + 256 * (addr.pos / 256 % 256 + 256 * 0) ≡ addr.pos = omega arith in
    let low : _ = take-length_append 32 addr.opid.bytes tail l in
    let high : _ = drop-length_append 32 addr.opid.bytes tail l in
    (
      omega (arith, length-append addr.opid.bytes tail),
      (λ i. record { opid = record { bytes = low i }; pos = le_value (take 2 (high i)) })
          ∙ (λ i. record { opid = addr.opid; pos = value i }),
    )

two_bytes :
    (b : Bytes) → length b ≡ 2 → All IsByte b → u16_to_le_bytes (u16_from_le_bytes (take 2 b)) ≡ b
unfolding u16_to_le_bytes u16_from_le_bytes
two_bytes [] l h = absurd (omega arith)
two_bytes (x ∷ []) l h = absurd (omega arith)
two_bytes (x ∷ y ∷ []) l h = ground arith
two_bytes (x ∷ y ∷ z ∷ r) l h = absurd (omega arith)

two_small : (b : Bytes) → length b ≡ 2 → All IsByte b → IsU16 (u16_from_le_bytes (take 2 b))
unfolding u16_from_le_bytes
two_small [] l h = absurd (omega arith)
two_small (x ∷ []) l h = absurd (omega arith)
two_small (x ∷ y ∷ []) l h = omega (arith, h.0, h.1.0)
two_small (x ∷ y ∷ z ∷ r) l h = absurd (omega arith)

-- Every 34 bytes are those of the address that is read from them.
to_bytes-from_bytes :
    (value : Bytes) → length value ≡ 34 → All IsByte value → to_bytes (from_bytes value) ≡ value
unfolding from_bytes to_bytes
to_bytes-from_bytes value l h =
    ap (λ b. take 32 value ++ b)
      (two_bytes (drop 32 value) (omega (arith, length-drop 32 value)) (All-drop IsByte 32 value h))
    ∙ take-append-drop 32 value

-- What the fields of an address hold in the source, and an array of 34 bytes.
abbrev pub IsAddr : CellAddr → Type 0
IsAddr addr = (length addr.opid.bytes ≡ 32) × All IsByte addr.opid.bytes × IsU16 addr.pos

abbrev pub IsArray34 : Bytes → Type 0
IsArray34 value = (length value ≡ 34) × All IsByte value

to_bytes-IsArray34 : (addr : CellAddr) → IsAddr addr → IsArray34 (to_bytes addr)
unfolding to_bytes
to_bytes-IsArray34 addr (size, bytes, small) = (
  omega (arith, length-append addr.opid.bytes (u16_to_le_bytes addr.pos)),
  All-append IsByte addr.opid.bytes (u16_to_le_bytes addr.pos) bytes
      (omega arith, (omega arith, tt)),
)

from_bytes-IsAddr : (value : Bytes) → IsArray34 value → IsAddr (from_bytes value)
unfolding from_bytes
from_bytes-IsAddr value (size, bytes) = (
  length-take_le 32 value (omega arith),
  All-take IsByte 32 value bytes,
  two_small (drop 32 value) (omega (arith, length-drop 32 value)) (All-drop IsByte 32 value bytes),
)

-- The 34-byte form is exact: an address is written as 34 bytes and read back from them, and every 34 bytes
-- are read as an address, with an operation id of 32 bytes and a position that is a `u16`, and are those
-- that it is written as.
pub address_bytes_exact :
    (addr : CellAddr) (value : Bytes)
    → IsAddr addr
    → IsArray34 value
    → (IsArray34 (to_bytes addr) × (from_bytes (to_bytes addr) ≡ addr))
      × (IsAddr (from_bytes value) × (to_bytes (from_bytes value) ≡ value))
address_bytes_exact addr value ok_addr ok_value = (
  (to_bytes-IsArray34 addr ok_addr, (from_bytes-to_bytes addr ok_addr.0 ok_addr.2).1),
  (from_bytes-IsAddr value ok_value, to_bytes-from_bytes value ok_value.0 ok_value.1),
)
