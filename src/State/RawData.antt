-- ===== src/State/RawData.antt =====
-- The text form of `RawData` of src/state.rs: hexadecimal digits behind `0x`. Text is a list of code
-- points. The hexadecimal coding itself is that of amplify, a parameter.
use ultrasonic.Prelude.{
  ℕ, ◌≡◌, ◌≢◌, refl, ap, ◌∙◌, Option, none, some, List, [], ◌∷◌, arith, All, ◌==◌, ◌&&◌,
  if◌then◌else◌, Result, ok, Bytes,
}

-- `FromHex::from_hex` and the upper-case `UpperHex` of the bytes.
pub record HexApi (HexError : Type 0) : Type 0 where
  pub from_hex : List ℕ → Result Bytes HexError
  pub to_hex : Bytes → List ℕ

-- What is printed reads back, and holds no letter `x`.
pub record HexLaws {HexError : Type 0} (hex : HexApi HexError) : Type 0 where
  pub from_hex-to_hex : (b : Bytes) → hex.from_hex (hex.to_hex b) ≡ ok b
  pub to_hex-digits : (b : Bytes) → All (λ c. c ≢ b'x') (hex.to_hex b)

-- `str::strip_prefix("0x")`
strip_prefix : List ℕ → Option (List ℕ)
strip_prefix (a ∷ b ∷ rest) = if a == b'0' && b == b'x' then some rest else none
strip_prefix _ = none

unwrap_or {ℓ} : {A : Type ℓ} → Option A → A → A
unwrap_or (some a) d = a
unwrap_or none d = d

module _ {HexError : Type 0} (hex : HexApi HexError) where
  -- `RawData::from_str`
  unfoldable pub from_str : List ℕ → Result Bytes HexError
  unfolding strip_prefix unwrap_or
  from_str s = hex.from_hex (unwrap_or (strip_prefix s) s)

  -- `Display` of `RawData`: `0x{0:X}`
  unfoldable pub to_string : Bytes → List ℕ
  to_string raw = b'0' ∷ b'x' ∷ hex.to_hex raw

strip_prefix-digits : (s : List ℕ) → All (λ c. c ≢ b'x') s → unwrap_or (strip_prefix s) s ≡ s
unfolding strip_prefix unwrap_or
strip_prefix-digits [] h = refl
strip_prefix-digits (a ∷ []) h = refl
strip_prefix-digits (a ∷ b ∷ rest) h = ground arith

module _ {HexError : Type 0} {hex : HexApi HexError} (laws : HexLaws hex) where
  -- The digits of a blob are read back to it, with the prefix that `Display` writes and without.
  pub from_str-to_string :
      (raw : Bytes)
      → (from_str hex (to_string hex raw) ≡ ok raw) × (from_str hex (hex.to_hex raw) ≡ ok raw)
  unfolding from_str to_string
  from_str-to_string raw =
      let plain : _ = strip_prefix-digits _ (laws.to_hex-digits raw) in
      (laws.from_hex-to_hex raw, ap hex.from_hex plain ∙ laws.from_hex-to_hex raw)
