-- ===== src/State/Auth.antt =====
-- `AuthToken` of src/state.rs: a field element that holds 30 bytes.
pub mod RoundTrip
pub mod Order
use Prim.Native.Nat.{compare, Ordering}
use ultrasonic.Prelude.{
  ℕ, Bool, ◌&&◌, Option, some, List, [], ◌∷◌, ◌++◌, take, drop, if◌then◌else◌, Partial, done,
  panicked, bytes_eq,
}
use ultrasonic.Prelude
use ultrasonic.Externals.{FieldApi}
use mathlib.Core.Bool.{not}

-- `[b; n]`
abbrev pub replicate {ℓ} : {A : Type ℓ} → ℕ → A → List A
replicate Prelude.zero a = []
replicate (Prelude.suc n) a = a ∷ replicate n a

pub record AuthToken (Fe : Type 0) : Type 0 where
  pub fe : Fe

module _ {Fe : Type 0} where
  -- `AuthToken::to_fe256`
  unfoldable pub to_fe256 : AuthToken Fe → Fe
  to_fe256 token = token.fe

module _ {Fe : Type 0} (api : FieldApi Fe) where
  open api use {from_le_bytes, to_u256, to_le_bytes}

  -- `AuthToken::from_byte_array`, of 30 bytes: the first 30 of a zeroed buffer of 32 are written.
  unfoldable pub from_byte_array : List ℕ → AuthToken Fe
  from_byte_array bytes = record { fe = from_le_bytes (bytes ++ drop 30 (replicate 32 0)) }

  -- `AuthToken::to_byte_array`. The assertion on the last two bytes is there in debug builds only.
  unfoldable pub to_byte_array : Bool → AuthToken Fe → Partial (List ℕ)
  to_byte_array debug token =
      let bytes = to_le_bytes (to_u256 token.fe) in
      if debug && not (bytes_eq (drop 30 bytes) (0 ∷ 0 ∷ []))
      then panicked
      else done (take 30 bytes)

  -- `From<[u8; 30]>` and `From<Bytes<30>>`, and `AuthToken::to_bytes30`, whose `Bytes<30>` are bytes.
  unfoldable pub from_array : List ℕ → AuthToken Fe
  unfolding from_byte_array
  from_array value = from_byte_array value

  unfoldable pub from_bytes30 : List ℕ → AuthToken Fe
  unfolding from_byte_array
  from_bytes30 value = from_byte_array value

  unfoldable pub to_bytes30 : Bool → AuthToken Fe → Partial (List ℕ)
  unfolding to_byte_array
  to_bytes30 debug token = to_byte_array debug token

  -- `Ord::cmp` and `PartialOrd::partial_cmp`
  unfoldable pub cmp : AuthToken Fe → AuthToken Fe → Ordering
  cmp a b = compare (to_u256 a.fe) (to_u256 b.fe)

  unfoldable pub partial_cmp : AuthToken Fe → AuthToken Fe → Option Ordering
  unfolding cmp
  partial_cmp a b = some (cmp a b)
