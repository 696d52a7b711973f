-- ===== src/Prelude/ByteStrings.antt =====
-- Byte strings as lists of numbers: equality as a test, and the little-endian value.
use Prim.Native.Nat.{ℕ, ◌+◌, ◌*◌, ◌^◌, ◌<◌}
use native.Mathlib.Nat.{pow-suc}
use native.Mathlib.Omega.{arith}
use mathlib.Core.Path.{◌≡◌, refl, ap, ap₂}
use mathlib.Core.Logic.{◌↔◌}
use mathlib.Core.Bool.{Bool, true, false, ◌&&◌}
use mathlib.Core.List.{List, [], ◌∷◌, ◌++◌}
use ultrasonic.Prelude.Tests.{◌==◌}
use ultrasonic.Prelude.Lists.{length, All}

abbrev pub Bytes : Type 0
Bytes = List ℕ

abbrev pub IsByte : ℕ → Type 0
IsByte n = n < 256

unfoldable pub bytes_eq : Bytes → Bytes → Bool
bytes_eq [] [] = true
bytes_eq (x ∷ xs) (y ∷ ys) = (x == y) && bytes_eq xs ys
bytes_eq _ _ = false

pub bytes_eq_refl : (xs : Bytes) → bytes_eq xs xs ≡ true
unfolding bytes_eq
bytes_eq_refl [] = refl
bytes_eq_refl (x ∷ xs) = ground (arith, bytes_eq_refl xs)

pub bytes_eq→eq : (xs ys : Bytes) → bytes_eq xs ys ≡ true → xs ≡ ys
unfolding bytes_eq
bytes_eq→eq [] [] h = refl
bytes_eq→eq [] (y ∷ ys) h = cc
bytes_eq→eq (x ∷ xs) [] h = cc
bytes_eq→eq (x ∷ xs) (y ∷ ys) h = ground (arith, bytes_eq→eq xs ys)

pub bytes_eq_iff : (xs ys : Bytes) → (bytes_eq xs ys ≡ true) ↔ (xs ≡ ys)
bytes_eq_iff xs ys = (bytes_eq→eq xs ys, λ e. rw e (bytes_eq_refl ys))

-- The number that the bytes write, least significant byte first.
unfoldable pub le_value : Bytes → ℕ
le_value [] = 0
le_value (x ∷ xs) = x + 256 * le_value xs

pub le_value-append :
    (xs ys : Bytes) → le_value (xs ++ ys) ≡ le_value xs + 256 ^ length xs * le_value ys
unfolding le_value
le_value-append [] ys = omega arith
le_value-append (x ∷ xs) ys =
    omega (arith, le_value-append xs ys, ap (λ (p : ℕ). p * le_value ys) (pow-suc 256 (length xs)))

pub le_value-lt : (xs : Bytes) → All IsByte xs → le_value xs < 256 ^ length xs
unfolding le_value
le_value-lt [] h = omega arith
le_value-lt (x ∷ xs) h = omega (arith, le_value-lt xs h.1, pow-suc 256 (length xs))

-- Byte strings of one length are told apart by their values.
pub le_value-injective :
    (xs ys : Bytes)
    → All IsByte xs
    → All IsByte ys
    → length xs ≡ length ys
    → le_value xs ≡ le_value ys
    → xs ≡ ys
unfolding le_value
le_value-injective [] [] hx hy l e = refl
le_value-injective [] (y ∷ ys) hx hy l e = absurd (omega arith)
le_value-injective (x ∷ xs) [] hx hy l e = absurd (omega arith)
le_value-injective (x ∷ xs) (y ∷ ys) hx hy l e =
    ap₂ ◌∷◌ (omega arith) (le_value-injective xs ys hx.1 hy.1 (omega arith) (omega arith))
