-- ===== src/Isa/Core/Text.antt =====
-- The debug output of the core (src/isa/core.rs). Text is a list of code points.
use mathlib.Core.Path.{subst}
use ultrasonic.Prelude.{
  ℕ, ◌≡◌, ◌↔◌, refl, sym, ap, ap₂, ◌∙◌, Bool, true, false, List, [], ◌∷◌, ◌++◌, arith, All, ok,
  IsU16,
}
use ultrasonic.Operation.Text.{decimal, decimal-IsDigit, IsDigit, read_u16, read_u16-decimal}
use ultrasonic.Isa.Core.{in_ro, in_ao, out_ro, out_ao, Ui, index, at, UsonicCore, FitsU16}

-- The four texts that the output is styled with.
record Style : Type 0 where
  sect : List ℕ
  reg : List ℕ
  val : List ℕ
  reset : List ℕ

abbrev newline : ℕ
newline = 10

abbrev escape : ℕ
escape = 27

-- `if f.alternate()`
abbrev style : Bool → Style
style true = record {
  sect = escape ∷ b'[' ∷ b'0' ∷ b';' ∷ b'4' ∷ b';' ∷ b'1' ∷ b'm' ∷ [];
  reg = escape ∷ b'[' ∷ b'0' ∷ b';' ∷ b'1' ∷ b'm' ∷ [];
  val = escape ∷ b'[' ∷ b'0' ∷ b';' ∷ b'3' ∷ b'2' ∷ b'm' ∷ [];
  reset = escape ∷ b'[' ∷ b'0' ∷ b'm' ∷ [];
}
style false = record { sect = []; reg = []; val = []; reset = [] }

-- `{reg}UI?{reset} {val}{}{reset}  ` and what is written after it.
item : Bool → ℕ → ℕ → List ℕ → List ℕ
item alternate digit n later =
    let s = style alternate in
    s.reg
    ++ (b'U'
        ∷ b'I'
        ∷ digit
        ∷ (s.reset ++ (b' ' ∷ (s.val ++ (decimal 5 n ++ (s.reset ++ (b' ' ∷ b' ' ∷ later)))))))

-- `{sect}U-regs:{reset}` on a line of its own, and what is written after it.
title : Bool → List ℕ → List ℕ
title alternate later =
    let s = style alternate in
    s.sect ++ (b'U' ∷ b'-' ∷ b'r' ∷ b'e' ∷ b'g' ∷ b's' ∷ b':' ∷ (s.reset ++ (newline ∷ later)))

-- `Debug` of `UsonicCore`
unfoldable pub debug : {Gfa : Type 0} → Bool → UsonicCore Gfa → List ℕ
unfolding item title
debug alternate core =
    newline
    ∷ title alternate (
        item alternate b'1' (at core.ui (index in_ro)) (
          item alternate b'2' (at core.ui (index in_ao)) (
            item alternate b'3' (at core.ui (index out_ro))
              (item alternate b'4' (at core.ui (index out_ao)) (newline ∷ newline ∷ [])))))

cancel {ℓ} : {A : Type ℓ} (xs : List A) {ys zs : List A} → (xs ++ ys) ≡ (xs ++ zs) → ys ≡ zs
cancel [] e = e
cancel (x ∷ xs) e = cancel xs (cc)

-- Digits end where something else stands.
split_digits :
    (xs ys : List ℕ) {c : ℕ} {r s : List ℕ}
    → ¬ (IsDigit c)
    → All IsDigit xs
    → All IsDigit ys
    → (xs ++ c ∷ r) ≡ (ys ++ c ∷ s)
    → (xs ≡ ys) × (r ≡ s)
split_digits [] [] other digits digits' e = (refl, cc)
split_digits [] (y ∷ ys) {c} other digits digits' e =
    let same : y ≡ c = cc in absurd (other (subst IsDigit same digits'.0))
split_digits (x ∷ xs) [] {c} other digits digits' e =
    let same : x ≡ c = cc in absurd (other (subst IsDigit same digits.0))
split_digits (x ∷ xs) (y ∷ ys) {c} {r} {s} other digits digits' e =
    let tail : (xs ++ c ∷ r) ≡ (ys ++ c ∷ s) = cc in
    let (same, rest) = split_digits xs ys other digits.1 digits'.1 tail in (ap₂ ◌∷◌ (cc) same, rest)

decimal-injective : (m n : ℕ) → IsU16 m → IsU16 n → decimal 5 m ≡ decimal 5 n → m ≡ n
decimal-injective m n h k e =
    let same : ok m ≡ ok n = sym (read_u16-decimal m h) ∙ ap read_u16 e ∙ read_u16-decimal n k in cc

-- What stands in front of the number of an item, and behind it.
abbrev front : Bool → ℕ → List ℕ
front alternate digit =
    let s = style alternate in s.reg ++ (b'U' ∷ b'I' ∷ digit ∷ (s.reset ++ (b' ' ∷ s.val)))

abbrev back : Bool → List ℕ
back alternate = (style alternate).reset ++ (b' ' ∷ b' ' ∷ [])

numeral-injective :
    (c : ℕ) (rest : List ℕ) (m n : ℕ) {x y : List ℕ}
    → ¬ (IsDigit c)
    → IsU16 m
    → IsU16 n
    → (decimal 5 m ++ (c ∷ (rest ++ x))) ≡ (decimal 5 n ++ (c ∷ (rest ++ y)))
    → (m ≡ n) × (x ≡ y)
numeral-injective c rest m n other h k e =
    let (same, tail) =
      split_digits (decimal 5 m) (decimal 5 n) other (decimal-IsDigit 5 m) (decimal-IsDigit 5 n)
        e in
    (decimal-injective m n h k same, cancel rest tail)

item-injective :
    (alternate : Bool) (digit m n : ℕ) {x y : List ℕ}
    → IsU16 m
    → IsU16 n
    → item alternate digit m x ≡ item alternate digit n y
    → (m ≡ n) × (x ≡ y)
unfolding item
item-injective true digit m n h k e =
    numeral-injective escape (b'[' ∷ b'0' ∷ b'm' ∷ b' ' ∷ b' ' ∷ []) m n (λ d. omega (arith, d.0)) h
      k (cancel (front true digit) e)
item-injective false digit m n h k e =
    numeral-injective b' ' (b' ' ∷ []) m n (λ d. omega (arith, d.0)) h k
      (cancel (front false digit) e)

title-injective : (alternate : Bool) {x y : List ℕ} → title alternate x ≡ title alternate y → x ≡ y
unfolding title
title-injective true e =
    cancel
      ((style true).sect
        ++ (b'U' ∷ b'-' ∷ b'r' ∷ b'e' ∷ b'g' ∷ b's' ∷ b':' ∷ ((style true).reset ++ newline ∷ [])))
      e
title-injective false e = cancel (b'U' ∷ b'-' ∷ b'r' ∷ b'e' ∷ b'g' ∷ b's' ∷ b':' ∷ newline ∷ []) e

Ui-eq :
    (a b : Ui)
    → at a (index in_ro) ≡ at b (index in_ro)
    → at a (index in_ao) ≡ at b (index in_ao)
    → at a (index out_ro) ≡ at b (index out_ro)
    → at a (index out_ao) ≡ at b (index out_ao)
    → a ≡ b
unfolding at index
Ui-eq a b p q r s = λ i. record { u₀ = p i; u₁ = q i; u₂ = r i; u₃ = s i }

module _ {Gfa : Type 0} (alternate : Bool) (a b : UsonicCore Gfa) (fits : FitsU16 a)
    (fits' : FitsU16 b) where
  debug-ui : debug alternate a ≡ debug alternate b → a.ui ≡ b.ui
  unfolding debug
  debug-ui e =
      let items : _ = title-injective alternate (cancel (newline ∷ []) e) in
      let (first, after₁) = item-injective alternate b'1' _ _ (fits in_ro) (fits' in_ro) items in
      let (second, after₂) = item-injective alternate b'2' _ _ (fits in_ao) (fits' in_ao) after₁ in
      let (third, after₃) = item-injective alternate b'3' _ _ (fits out_ro) (fits' out_ro) after₂ in
      let (fourth, after₄) =
        item-injective alternate b'4' _ _ (fits out_ao) (fits' out_ao) after₃ in
      Ui-eq a.ui b.ui first second third fourth

  -- The debug outputs of two cores, both styled or both plain, are equal just if the iterators are: the
  -- output shows all of them, and nothing of the field core. The iterators are `u16`.
  pub debug_iff : (debug alternate a ≡ debug alternate b) ↔ (a.ui ≡ b.ui)
  unfolding debug
  debug_iff = (
    debug-ui,
    λ same. ap (λ ui. debug {Gfa = Gfa} alternate (record { ui = ui; gfa = a.gfa })) same,
  )
