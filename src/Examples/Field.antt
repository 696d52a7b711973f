-- ===== src/Examples/Field.antt =====
-- Field elements as the numbers below 2 ^ 256, and hexadecimal text.
use native.Mathlib.Nat.{pow-suc}
use Prim.Native.Nat.{Fin}
use native.Mathlib.Fin.{val_path}
use ultrasonic.Prelude.{
  ℕ, zero, suc, ◌/◌, ◌%◌, ◌^◌, ◌<◌, ◌≡◌, refl, ap, [], ◌∷◌, arith, length, All, Bytes, IsByte,
  le_value,
}
use ultrasonic.Externals.{FieldApi, FieldLaws}

abbrev pub Element : Type 0
Element = Fin (2 ^ 256)

pub below : (n : ℕ) → n % 2 ^ 256 < 2 ^ 256
below n = omega arith

-- The `count` lowest bytes of a number.
unfoldable pub digits : ℕ → ℕ → Bytes
digits zero n = []
digits (suc count) n = (n % 256) ∷ digits count (n / 256)

length-digits : (count n : ℕ) → length (digits count n) ≡ count
unfolding digits
length-digits zero n = refl
length-digits (suc count) n = ap suc (length-digits count (n / 256))

digits-IsByte : (count n : ℕ) → All IsByte (digits count n)
unfolding digits
digits-IsByte zero n = tt
digits-IsByte (suc count) n = (omega arith, digits-IsByte count (n / 256))

le_value-digits : (count n : ℕ) → n < 256 ^ count → le_value (digits count n) ≡ n
unfolding digits le_value
le_value-digits zero n h = omega arith
le_value-digits (suc count) n h =
    let rest : _ = le_value-digits count (n / 256) (omega (arith, pow-suc 256 count)) in
    omega (arith, rest)

abbrev pub element_of : ℕ → Element
element_of n = (n % 2 ^ 256, below n)

abbrev pub field : FieldApi Element
field = record {
  from_le_bytes = λ b. element_of (le_value b);
  to_u256 = λ x. x.0;
  to_le_bytes = λ n. digits 32 n;
}

pub field_laws : FieldLaws field
field_laws = record {
  to_u256-from_le_bytes = λ b l h small. omega arith;
  to_u256-lt = λ x. x.1;
  to_u256-injective = λ x y e. val_path e;
  length-to_le_bytes = λ n. length-digits 32 n;
  to_le_bytes-IsByte = λ n. digits-IsByte 32 n;
  le_value-to_le_bytes = λ n h. le_value-digits 32 n (omega arith);
}
