-- ===== src/Operation/Text.antt =====
-- The text of a `CellAddr` (src/operation.rs): the operation id, a colon, and the position in decimal.
-- Text is a list of code points. The text of the id is that of the baid64 crate, a parameter.
pub mod Exact
use native.Mathlib.Nat.{pow-suc}
use ultrasonic.Prelude.{
  ℕ, zero, suc, ◌+◌, ◌*◌, ◌/◌, ◌%◌, ◌-◌, ◌^◌, ◌≤◌, ◌<◌, ◌≡◌, ◌≢◌, refl, ap, ap₂, ◌∙◌, true, false,
  ◌&&◌, Option, none, some, List, [], ◌∷◌, ◌++◌, arith, All, All-append, ltb, leb, ◌==◌,
  if◌then◌else◌, Result, ok, err, IsU16, Bool-cases, length, ltb→lt, ==_iff, inl, inr,
}
use ultrasonic.Ids.{Opid}
use ultrasonic.Operation.{CellAddr, new}

-- `ParseIntError`, by its kinds.
pub data ParseIntError : Type 0 where
  empty invalid_digit pos_overflow : ParseIntError

pub data ParseAddrError (OpidError : Type 0) : Type 0 where
  malformed_separator : List ℕ → ParseAddrError OpidError
  invalid_out : ParseIntError → ParseAddrError OpidError
  invalid_opid : OpidError → ParseAddrError OpidError

-- `Opid::from_str` and `Display` of `Opid`.
pub record OpidText (OpidError : Type 0) : Type 0 where
  pub read : List ℕ → Result Opid OpidError
  pub print : Opid → List ℕ

-- What is printed of 32 bytes reads back, and has no colon: the prefix of an operation id is not printed.
pub record OpidTextLaws {OpidError : Type 0} (text : OpidText OpidError) : Type 0 where
  pub read-print : (o : Opid) → length o.bytes ≡ 32 → text.read (text.print o) ≡ ok o
  pub print-plain : (o : Opid) → All (λ c. c ≢ b':') (text.print o)

-- `Display` of a number, with enough steps for the digits of a `u16`.
unfoldable pub decimal : ℕ → ℕ → List ℕ
decimal zero n = []
decimal (suc count) n =
    let front = decimal count (n / 10) in
    if ltb n 10 then (48 + n) ∷ [] else front ++ (48 + n % 10) ∷ []

-- The loop of `u16::from_str` over the digits.
unfoldable pub read_digits : List ℕ → ℕ → Result ℕ ParseIntError
read_digits [] value = ok value
read_digits (c ∷ rest) value =
    let next = read_digits rest (value * 10 + (c - 48)) in
    if leb 48 c && leb c 57
    then if leb (value * 10 + (c - 48)) 65535 then next else err ParseIntError.pos_overflow
    else err ParseIntError.invalid_digit

-- `u16::from_str`: a plus in front is passed over, if something follows.
unfoldable pub read_u16 : List ℕ → Result ℕ ParseIntError
unfolding read_digits
read_u16 [] = err ParseIntError.empty
read_u16 (c ∷ []) = if c == b'+' then err ParseIntError.invalid_digit else read_digits (c ∷ []) 0
read_u16 (c ∷ d ∷ rest) =
    if c == b'+' then read_digits (d ∷ rest) 0 else read_digits (c ∷ d ∷ rest) 0

-- `str::split_once(":")`
unfoldable pub split_once : List ℕ → Option (List ℕ × List ℕ)
split_once [] = none
split_once (c ∷ rest) =
    let later = split_once rest in
    if c == b':'
    then some ([], rest)
    else elim later [ none ↦ none | some (left, right) ↦ some (c ∷ left, right) ]

module _ {OpidError : Type 0} (text : OpidText OpidError) where
  -- The two `?` of the ids, on the parts of the text.
  parts :
      Result Opid OpidError → Result ℕ ParseIntError → Result CellAddr (ParseAddrError OpidError)
  unfolding new
  parts (err e) pos = err (ParseAddrError.invalid_opid e)
  parts (ok opid) (err e) = err (ParseAddrError.invalid_out e)
  parts (ok opid) (ok pos) = ok (new opid pos)

  located : List ℕ → Option (List ℕ × List ℕ) → Result CellAddr (ParseAddrError OpidError)
  unfolding parts
  located s none = err (ParseAddrError.malformed_separator s)
  located s (some (opid, pos)) = parts (text.read opid) (read_u16 pos)

  -- `CellAddr::from_str`
  unfoldable pub addr_from_str : List ℕ → Result CellAddr (ParseAddrError OpidError)
  unfolding located
  addr_from_str s = located s (split_once s)

  -- `Display` of `CellAddr`
  unfoldable pub addr_to_string : CellAddr → List ℕ
  addr_to_string addr = text.print addr.opid ++ b':' ∷ decimal 5 addr.pos

abbrev pub IsDigit : ℕ → Type 0
IsDigit c = (48 ≤ c) × (c ≤ 57)

pub decimal-IsDigit : (count n : ℕ) → All IsDigit (decimal count n)
unfolding decimal
decimal-IsDigit zero n = tt
decimal-IsDigit (suc count) n = elim (Bool-cases (ltb n 10)) [
  | inl small ↦ rw small ((omega arith, ground arith), tt)
  | inr large ↦ rw large (
      All-append IsDigit (decimal count (n / 10)) ((48 + n % 10) ∷ [])
        (decimal-IsDigit count (n / 10)) ((omega arith, omega arith), tt))
]

read_digits-append :
    (xs ys : List ℕ) (value : ℕ) {result : ℕ}
    → read_digits xs value ≡ ok result
    → read_digits (xs ++ ys) value ≡ read_digits ys result
unfolding read_digits
read_digits-append [] ys value h = ap (read_digits ys) (cc)
read_digits-append (c ∷ xs) ys value h = elim (Bool-cases (leb 48 c && leb c 57)) [
  | inr other ↦ let h' : _ = rw other at h in cc h'
  | inl digit ↦ elim (Bool-cases (leb (value * 10 + (c - 48)) 65535)) [
    | inr large ↦ let h' : _ = rw (digit, large) at h in cc h'
    | inl fits ↦
        rw (digit, fits) (read_digits-append xs ys (value * 10 + (c - 48)) (rw (digit, fits) at h))
  ]
]

read_digit :
    (d value : ℕ)
    → d < 10
    → value * 10 + d ≤ 65535
    → read_digits ((48 + d) ∷ []) value ≡ ok (value * 10 + d)
unfolding read_digits
read_digit d value small fits = ground arith

read_digits-decimal :
    (count n : ℕ) → 0 < count → n < 10 ^ count → n ≤ 65535 → read_digits (decimal count n) 0 ≡ ok n
unfolding read_digits decimal
read_digits-decimal zero n h small fits = absurd (omega arith)
read_digits-decimal (suc zero) n h small fits =
    let one : ltb n 10 ≡ true = ground arith in
    let plain : 0 * 10 + n ≡ n = omega arith in
    rw one (read_digit n 0 (omega arith) (omega arith) ∙ ap ok plain)
read_digits-decimal (suc (suc count)) n h small fits = elim (Bool-cases (ltb n 10)) [
  | inl one ↦
      let plain : 0 * 10 + n ≡ n = omega arith in
      rw one (read_digit n 0 (ltb→lt n 10 one) (omega arith) ∙ ap ok plain)
  | inr more ↦
      let front : _ =
        read_digits-decimal (suc count) (n / 10) (omega arith)
          (omega (arith, pow-suc 10 (suc count))) (omega arith) in
      let last : _ = read_digit (n % 10) (n / 10) (omega arith) (omega arith) in
      let whole : n / 10 * 10 + n % 10 ≡ n = omega arith in
      rw more (
        read_digits-append (decimal (suc count) (n / 10)) ((48 + n % 10) ∷ []) 0 front
        ∙ last
        ∙ ap ok whole)
]

pub split_once_lem :
    (xs ys : List ℕ) → All (λ c. c ≢ b':') xs → split_once (xs ++ b':' ∷ ys) ≡ some (xs, ys)
unfolding split_once
split_once_lem [] ys h = refl
split_once_lem (x ∷ xs) ys h = elim (Bool-cases (x == b':')) [
  | inl same ↦ absurd (h.0 ((==_iff x b':').0 same))
  | inr other ↦ rw (other, split_once_lem xs ys h.1)
]

-- Digits do not begin with a plus.
pub read_u16-digits :
    (s : List ℕ) {n : ℕ} → All IsDigit s → s ≢ [] → read_digits s 0 ≡ ok n → read_u16 s ≡ ok n
unfolding read_u16
read_u16-digits [] digits some_digit h = absurd (some_digit refl)
read_u16-digits (c ∷ []) digits some_digit h =
    let plain : (c == b'+') ≡ false = ground (arith, digits.0) in rw plain h
read_u16-digits (c ∷ d ∷ rest) digits some_digit h =
    let plain : (c == b'+') ≡ false = ground (arith, digits.0) in rw plain h

decimal-full : (n : ℕ) → decimal 5 n ≢ []
unfolding decimal
decimal-full n e = elim (Bool-cases (ltb n 10)) [
  | inl one ↦ let e' : _ = rw one at e in cc e'
  | inr more ↦ let e' : _ = rw more at e in snoc (decimal 4 (n / 10)) (48 + n % 10) e'
]
  where
    snoc : (xs : List ℕ) (c : ℕ) → (xs ++ c ∷ []) ≡ [] → ⊥
    snoc [] c e = cc
    snoc (x ∷ xs) c e = cc

-- Every `u16` is read from its decimal digits.
pub read_u16-decimal : (n : ℕ) → IsU16 n → read_u16 (decimal 5 n) ≡ ok n
read_u16-decimal n h =
    let read : read_digits (decimal 5 n) 0 ≡ ok n =
      read_digits-decimal 5 n (omega arith) (omega arith) (omega arith) in
    read_u16-digits (decimal 5 n) (decimal-IsDigit 5 n) (decimal-full n) read

module _ {OpidError : Type 0} {text : OpidText OpidError} (laws : OpidTextLaws text) where
  -- An address of an operation id of 32 bytes and a position that is a `u16` is read back from its
  -- text. The texts of such ids are taken to read back and to have no colon.
  pub addr_from_str-addr_to_string :
      (addr : CellAddr)
      → length addr.opid.bytes ≡ 32
      → IsU16 addr.pos
      → addr_from_str text (addr_to_string text addr) ≡ ok addr
  unfolding addr_from_str addr_to_string parts located new
  addr_from_str-addr_to_string addr size h =
      let cut : _ =
        split_once_lem (text.print addr.opid) (decimal 5 addr.pos) (laws.print-plain addr.opid) in
      ap (located text (addr_to_string text addr)) cut
      ∙ ap₂ (parts text) (laws.read-print addr.opid size) (read_u16-decimal addr.pos h)
