-- ===== src/Prelude/Orders.antt =====
-- What `Ord`, `PartialEq` and `Hash` promise together, and the comparison of byte arrays.
use Prim.Native.Nat.{ℕ, compare, Ordering}
use Prim.Native.Nat.Ordering.{lt, eq, gt}
use native.Mathlib.Omega.{arith}
use mathlib.Core.Path.{◌≡◌, refl}
use mathlib.Core.Logic.{◌↔◌}
use mathlib.Core.List.{[], ◌∷◌}
use ultrasonic.Prelude.ByteStrings.{Bytes}

-- `Ordering::reverse`
abbrev pub reverse : Ordering → Ordering
reverse lt = gt
reverse eq = eq
reverse gt = lt

-- `Ordering::then`
abbrev or_else : Ordering → Ordering → Ordering
or_else eq later = later
or_else lt later = lt
or_else gt later = gt

-- The derived `Ord` of a byte array: the first difference decides.
unfoldable pub bytes_cmp : Bytes → Bytes → Ordering
bytes_cmp [] [] = eq
bytes_cmp [] (y ∷ ys) = lt
bytes_cmp (x ∷ xs) [] = gt
bytes_cmp (x ∷ xs) (y ∷ ys) = or_else (compare x y) (bytes_cmp xs ys)

-- A total order whose ties are the pairs that are `Same`.
pub record IsTotalOrder {ℓ} {K : Type ℓ} (Same : K → K → Type ℓ) (cmp : K → K → Ordering)
    : Type ℓ where
  pub ties : (a b : K) → (cmp a b ≡ eq) ↔ Same a b
  pub swaps : (a b : K) → cmp b a ≡ reverse (cmp a b)
  pub chains : (a b c : K) → cmp a b ≡ lt → cmp b c ≡ lt → cmp a c ≡ lt

bytes_cmp_refl : (a : Bytes) → bytes_cmp a a ≡ eq
unfolding bytes_cmp
bytes_cmp_refl [] = refl
bytes_cmp_refl (x ∷ xs) = ground (arith, bytes_cmp_refl xs)

bytes_cmp-eq : (a b : Bytes) → bytes_cmp a b ≡ eq → a ≡ b
unfolding bytes_cmp
bytes_cmp-eq [] [] h = refl
bytes_cmp-eq [] (y ∷ ys) h = cc
bytes_cmp-eq (x ∷ xs) [] h = cc
bytes_cmp-eq (x ∷ xs) (y ∷ ys) h = ground (arith, bytes_cmp-eq xs ys)

bytes_cmp-reverse : (a b : Bytes) → bytes_cmp b a ≡ reverse (bytes_cmp a b)
unfolding bytes_cmp
bytes_cmp-reverse [] [] = refl
bytes_cmp-reverse [] (y ∷ ys) = refl
bytes_cmp-reverse (x ∷ xs) [] = refl
bytes_cmp-reverse (x ∷ xs) (y ∷ ys) = ground (arith, bytes_cmp-reverse xs ys)

bytes_cmp_trans : (a b c : Bytes) → bytes_cmp a b ≡ lt → bytes_cmp b c ≡ lt → bytes_cmp a c ≡ lt
unfolding bytes_cmp
bytes_cmp_trans [] [] c h k = cc
bytes_cmp_trans [] (y ∷ ys) [] h k = cc
bytes_cmp_trans [] (y ∷ ys) (z ∷ zs) h k = refl
bytes_cmp_trans (x ∷ xs) [] c h k = cc
bytes_cmp_trans (x ∷ xs) (y ∷ ys) [] h k = cc
bytes_cmp_trans (x ∷ xs) (y ∷ ys) (z ∷ zs) h k = ground (arith, bytes_cmp_trans xs ys zs)

pub bytes_cmp-IsTotalOrder : IsTotalOrder ◌≡◌ bytes_cmp
bytes_cmp-IsTotalOrder = record {
  ties = λ a b. (bytes_cmp-eq a b, λ e. rw e (bytes_cmp_refl b));
  swaps = bytes_cmp-reverse;
  chains = bytes_cmp_trans;
}

pub compare-IsTotalOrder : IsTotalOrder {K = ℕ} ◌≡◌ compare
compare-IsTotalOrder = record {
  ties = λ a b. ground arith;
  swaps = λ a b. ground arith;
  chains = λ a b c. ground arith;
}

-- An order on keys orders what has keys.
pub IsTotalOrder-on :
    {K A : Type 0} {cmp : K → K → Ordering} {Same : A → A → Type 0} (key : A → K)
    → IsTotalOrder ◌≡◌ cmp
    → ((a b : A) → (key a ≡ key b) ↔ Same a b)
    → IsTotalOrder Same (λ a b. cmp (key a) (key b))
IsTotalOrder-on key order same = record {
  ties = λ a b.
      let (to, from) = order.ties (key a) (key b) in
      let (into, back) = same a b in (λ h. into (to h), λ s. from (back s));
  swaps = λ a b. order.swaps (key a) (key b);
  chains = λ a b c. order.chains (key a) (key b) (key c);
}
