-- ===== src/Operation/Text/Exact.antt =====
-- Which texts are read as a `CellAddr`, and as which (src/operation.rs).
use mathlib.Core.Path.{subst}
use ultrasonic.Prelude.{
  ℕ, ◌+◌, ◌*◌, ◌-◌, ◌≤◌, ◌≡◌, ◌≢◌, ◌⊎◌, ◌↔◌, refl, ap, ap₂, ◌∙◌, true, ◌&&◌, none, some, List, [],
  ◌∷◌, ◌++◌, arith, All, leb, ◌==◌, Result, ok, err, Bool-cases, ==_iff, inl, inr,
}
use ultrasonic.Ids.{Opid}
use ultrasonic.Operation.{CellAddr, new}
use ultrasonic.Operation.Text.{
  ParseIntError, ParseAddrError, OpidText, IsDigit, read_digits, read_u16, split_once,
  split_once_lem, parts, located, addr_from_str, read_u16-digits,
}

-- The number that digits are, most significant first, after a part that is `value`.
abbrev pub value_from : ℕ → List ℕ → ℕ
value_from value [] = value
value_from value (c ∷ rest) = value_from (value * 10 + (c - 48)) rest

-- A text of digits, at least one, with or without a plus in front, of a number that a `u16` holds.
abbrev pub IsNumeral : List ℕ → ℕ → Type 0
IsNumeral s n =
    (digits : List ℕ) × ((s ≡ digits) ⊎ (s ≡ b'+' ∷ digits))
    × (digits ≢ [])
    × All IsDigit digits
    × (value_from 0 digits ≡ n)
    × (n ≤ 65535)

value_from_le : (digits : List ℕ) (value : ℕ) → value ≤ value_from value digits
value_from_le [] value = omega arith
value_from_le (c ∷ rest) value = omega (arith, value_from_le rest (value * 10 + (c - 48)))

leb-IsDigit : (c : ℕ) → (leb 48 c && leb c 57) ≡ true → IsDigit c
leb-IsDigit c h = (ground (arith, h), ground (arith, h))

-- The loop over the digits accepts just digits of a number within the bound.
read_digits-value :
    (s : List ℕ) (value : ℕ) {n : ℕ}
    → value ≤ 65535
    → read_digits s value ≡ ok n
    → All IsDigit s × (value_from value s ≡ n) × (n ≤ 65535)
unfolding read_digits
read_digits-value [] value fits h = (tt, cc, ground (arith, fits, h))
read_digits-value (c ∷ rest) value fits h = elim (Bool-cases (leb 48 c && leb c 57)) [
  | inr other ↦ let h' : _ = rw other at h in cc h'
  | inl digit ↦ elim (Bool-cases (leb (value * 10 + (c - 48)) 65535)) [
    | inr large ↦ let h' : _ = rw (digit, large) at h in cc h'
    | inl small ↦
        let (digits, same, bound) =
          read_digits-value rest (value * 10 + (c - 48)) (ground (arith, small))
            (rw (digit, small) at h) in
        ((leb-IsDigit c digit, digits), same, bound)
  ]
]

value-read_digits :
    (s : List ℕ) (value : ℕ)
    → All IsDigit s
    → value_from value s ≤ 65535
    → read_digits s value ≡ ok (value_from value s)
unfolding read_digits
value-read_digits [] value digits fits = refl
value-read_digits (c ∷ rest) value digits fits =
    let digit : (leb 48 c && leb c 57) ≡ true = ground (arith, digits.0) in
    let small : leb (value * 10 + (c - 48)) 65535 ≡ true =
      ground (arith, fits, value_from_le rest (value * 10 + (c - 48))) in
    rw (digit, small) (value-read_digits rest (value * 10 + (c - 48)) digits.1 fits)

-- `u16::from_str`, whose text is digits or a plus and digits.
read_u16-IsNumeral : (s : List ℕ) {n : ℕ} → read_u16 s ≡ ok n → IsNumeral s n
unfolding read_u16
read_u16-IsNumeral [] h = absurd (cc)
read_u16-IsNumeral (c ∷ []) h = elim (Bool-cases (c == b'+')) [
  | inl plus ↦ let h' : _ = rw plus at h in cc h'
  | inr plain ↦
      let (digits, same, bound) = read_digits-value (c ∷ []) 0 (omega arith) (rw plain at h) in
      (c ∷ [], inl refl, (λ e. cc), digits, same, bound)
]
read_u16-IsNumeral (c ∷ d ∷ rest) h = elim (Bool-cases (c == b'+')) [
  | inl plus ↦
      let (digits, same, bound) = read_digits-value (d ∷ rest) 0 (omega arith) (rw plus at h) in
      (
        d ∷ rest,
        inr (ap (λ x. x ∷ d ∷ rest) ((==_iff c b'+').0 plus)),
        (λ e. cc),
        digits,
        same,
        bound,
      )
  | inr plain ↦
      let (digits, same, bound) =
        read_digits-value (c ∷ d ∷ rest) 0 (omega arith) (rw plain at h) in
      (c ∷ d ∷ rest, inl refl, (λ e. cc), digits, same, bound)
]

-- A plus in front of something is passed over.
read_u16-plus : (s : List ℕ) → s ≢ [] → read_u16 (b'+' ∷ s) ≡ read_digits s 0
unfolding read_u16
read_u16-plus [] full = absurd (full refl)
read_u16-plus (d ∷ rest) full = refl

IsNumeral-read_u16 : (s : List ℕ) {n : ℕ} → IsNumeral s n → read_u16 s ≡ ok n
IsNumeral-read_u16 s {n} (ds, shape, full, digits, same, bound) =
    let read : read_digits ds 0 ≡ ok n =
      value-read_digits ds 0 digits (omega (arith, same, bound)) ∙ ap ok same in
    elim shape [
      | inl e ↦ ap read_u16 e ∙ read_u16-digits ds digits full read
      | inr e ↦ ap read_u16 e ∙ read_u16-plus ds full ∙ read
    ]

-- A text is cut at its first colon, or has none.
split_once-cases :
    (s : List ℕ)
    → ((split_once s ≡ none) × All (λ c. c ≢ b':') s)
      ⊎ ((left : List ℕ) × (right : List ℕ) × (split_once s ≡ some (left, right))
          × (s ≡ left ++ b':' ∷ right)
          × All (λ c. c ≢ b':') left)
unfolding split_once
split_once-cases [] = inl (refl, tt)
split_once-cases (c ∷ rest) = elim (Bool-cases (c == b':')) [
  | inl colon ↦ inr ([], rest, rw colon refl, ap (λ x. x ∷ rest) ((==_iff c b':').0 colon), tt)
  | inr other ↦
      let differs : c ≢ b':' = ground (arith, other) in
      elim (split_once-cases rest) [
        | inl (e, plain) ↦ inl (rw (other, e) refl, (differs, plain))
        | inr (left, right, e, same, plain) ↦
            inr (c ∷ left, right, rw (other, e) refl, ap (λ l. c ∷ l) same, (differs, plain))
      ]
]

no_colon : (left right : List ℕ) → All (λ c. c ≢ b':') (left ++ b':' ∷ right) → ⊥
no_colon [] right h = h.0 refl
no_colon (c ∷ left) right h = no_colon left right h.1

module _ {OpidError : Type 0} (text : OpidText OpidError) where
  parts-ok :
      (opid : Result Opid OpidError) (pos : Result ℕ ParseIntError) {addr : CellAddr}
      → parts text opid pos ≡ ok addr
      → (opid ≡ ok addr.opid) × (pos ≡ ok addr.pos)
  unfolding parts new
  parts-ok (err e) pos h = absurd (cc)
  parts-ok (ok opid) (err e) h = absurd (cc)
  parts-ok (ok opid) (ok pos) {addr} h =
      let same : record { opid = opid; pos = pos } ≡ addr = cc in
      (ap (λ (a : CellAddr). ok a.opid) same, ap (λ (a : CellAddr). ok a.pos) same)

  ok-parts :
      (opid : Opid) (pos : ℕ)
      → parts text (ok opid) (ok pos) ≡ ok (record { opid = opid; pos = pos })
  unfolding parts new
  ok-parts opid pos = refl

  parts-separated :
      (opid : Result Opid OpidError) (pos : Result ℕ ParseIntError) (s : List ℕ)
      → parts text opid pos ≢ err (ParseAddrError.malformed_separator s)
  unfolding parts
  parts-separated (err e) pos s h = cc
  parts-separated (ok opid) (err e) s h = cc
  parts-separated (ok opid) (ok pos) s h = cc

  -- What the id is read from, with no colon, then a colon, then the numeral of the position.
  abbrev pub IsTextOf : List ℕ → CellAddr → Type 0
  IsTextOf s addr =
      (left : List ℕ) × (right : List ℕ) × (s ≡ left ++ b':' ∷ right)
      × All (λ c. c ≢ b':') left
      × (text.read left ≡ ok addr.opid)
      × IsNumeral right addr.pos

  module _ (s : List ℕ) where
    addr_from_str-IsTextOf : {addr : CellAddr} → addr_from_str text s ≡ ok addr → IsTextOf s addr
    unfolding addr_from_str located
    addr_from_str-IsTextOf h = elim (split_once-cases s) [
      | inl (e, plain) ↦ let h' : _ = rw e at h in cc h'
      | inr (left, right, e, same, plain) ↦
          let (read, numeral) = parts-ok (text.read left) (read_u16 right) (rw e at h) in
          (left, right, same, plain, read, read_u16-IsNumeral right numeral)
    ]

    IsTextOf-addr_from_str : {addr : CellAddr} → IsTextOf s addr → addr_from_str text s ≡ ok addr
    unfolding addr_from_str located
    IsTextOf-addr_from_str {addr} (left, right, same, plain, read, numeral) =
        ap (located text s) (ap split_once same ∙ split_once_lem left right plain)
        ∙ ap₂ (parts text) read (IsNumeral-read_u16 right numeral)
        ∙ ok-parts addr.opid addr.pos

    addr_from_str-separator :
        (addr_from_str text s ≡ err (ParseAddrError.malformed_separator s)) ↔ All (λ c. c ≢ b':') s
    unfolding addr_from_str located
    addr_from_str-separator = elim (split_once-cases s) [
      | inl (e, plain) ↦ ((λ h. plain), λ h. ap (located text s) e)
      | inr (left, right, e, same, plain) ↦ (
        (λ h. absurd (parts-separated (text.read left) (read_u16 right) s (rw e at h))),
        λ h. absurd (no_colon left right (subst (All (λ c. c ≢ b':')) same h)),
      )
    ]

    -- A text is read as an address just if it is what the id is read from, with no colon, then a colon,
    -- then digits, at least one and with or without a plus in front, of a position that a `u16` holds.
    -- It is reported to lack a separator just if it has no colon.
    pub addr_from_str_iff :
        ((addr : CellAddr) → (addr_from_str text s ≡ ok addr) ↔ IsTextOf s addr)
        × ((addr_from_str text s ≡ err (ParseAddrError.malformed_separator s))
            ↔ All (λ c. c ≢ b':') s)
    addr_from_str_iff =
        ((λ addr. (addr_from_str-IsTextOf, IsTextOf-addr_from_str)), addr_from_str-separator)
