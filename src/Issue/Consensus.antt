-- ===== src/Issue/Consensus.antt =====
-- The enumeration `Consensus` of src/issue.rs: its texts, and its byte. Text is a list of code points.
use ultrasonic.Prelude.{
  ℕ, ◌≡◌, ◌↔◌, refl, ◌∙◌, ap, Option, none, some, List, [], ◌∷◌, Result, ok, err, bytes_eq,
  bytes_eq_iff, ◌==◌, if◌then◌else◌, true, Bool-cases, inl, inr, arith,
}

-- The variants `None`, `Bitcoin`, `Liquid` and `Prime` of `Consensus`.
pub data Layer : Type 0 where
  no_consensus bitcoin liquid prime : Layer

-- The lower-case `Display`.
abbrev pub to_string : Layer → List ℕ
to_string Layer.no_consensus = b'n' ∷ b'o' ∷ b'n' ∷ b'e' ∷ []
to_string Layer.bitcoin = b'b' ∷ b'i' ∷ b't' ∷ b'c' ∷ b'o' ∷ b'i' ∷ b'n' ∷ []
to_string Layer.liquid = b'l' ∷ b'i' ∷ b'q' ∷ b'u' ∷ b'i' ∷ b'd' ∷ []
to_string Layer.prime = b'p' ∷ b'r' ∷ b'i' ∷ b'm' ∷ b'e' ∷ []

-- `Consensus::from_str`, which gives an unknown text back as the error.
unfoldable pub from_str : List ℕ → Result Layer (List ℕ)
from_str s =
    if bytes_eq s (b'n' ∷ b'o' ∷ b'n' ∷ b'e' ∷ [])
    then ok Layer.no_consensus
    else if bytes_eq s (b'b' ∷ b'i' ∷ b't' ∷ b'c' ∷ b'o' ∷ b'i' ∷ b'n' ∷ [])
    then ok Layer.bitcoin
    else if bytes_eq s (b'l' ∷ b'i' ∷ b'q' ∷ b'u' ∷ b'i' ∷ b'd' ∷ [])
    then ok Layer.liquid
    else if bytes_eq s (b'p' ∷ b'r' ∷ b'i' ∷ b'm' ∷ b'e' ∷ [])
    then ok Layer.prime
    else err s

-- The discriminants, `into_u8` and `try_from_u8`.
unfoldable pub into_u8 : Layer → ℕ
into_u8 Layer.no_consensus = 0
into_u8 Layer.bitcoin = 16
into_u8 Layer.liquid = 17
into_u8 Layer.prime = 32

unfoldable pub try_from_u8 : ℕ → Option Layer
try_from_u8 n =
    if n == 0
    then some Layer.no_consensus
    else if n == 16
    then some Layer.bitcoin
    else if n == 17
    then some Layer.liquid
    else if n == 32
    then some Layer.prime
    else none

from_str-to_string : (layer : Layer) → from_str (to_string layer) ≡ ok layer
unfolding from_str bytes_eq
from_str-to_string Layer.no_consensus = refl
from_str-to_string Layer.bitcoin = refl
from_str-to_string Layer.liquid = refl
from_str-to_string Layer.prime = refl

named :
    (s text : List ℕ) (layer : Layer)
    → bytes_eq s text ≡ true
    → text ≡ to_string layer
    → s ≡ to_string layer
named s text layer h e = (bytes_eq_iff s text).0 h ∙ e

-- A text is read as a consensus layer just if it is what that layer prints.
pub from_str_iff : (s : List ℕ) (layer : Layer) → (from_str s ≡ ok layer) ↔ (s ≡ to_string layer)
unfolding from_str
from_str_iff s layer = (
  λ h. elim (Bool-cases (bytes_eq s (to_string Layer.no_consensus))) [
    | inl a ↦ let h' : _ = rw a at h in (bytes_eq_iff _ _).0 a ∙ cc h'
    | inr a ↦ elim (Bool-cases (bytes_eq s (to_string Layer.bitcoin))) [
      | inl b ↦ let h' : _ = rw (a, b) at h in (bytes_eq_iff _ _).0 b ∙ cc h'
      | inr b ↦ elim (Bool-cases (bytes_eq s (to_string Layer.liquid))) [
        | inl c ↦ let h' : _ = rw (a, b, c) at h in (bytes_eq_iff _ _).0 c ∙ cc h'
        | inr c ↦ elim (Bool-cases (bytes_eq s (to_string Layer.prime))) [
          | inl d ↦ let h' : _ = rw (a, b, c, d) at h in (bytes_eq_iff _ _).0 d ∙ cc h'
          | inr d ↦ let h' : _ = rw (a, b, c, d) at h in cc h'
        ]
      ]
    ]
  ],
  λ e. ap from_str e ∙ from_str-to_string layer,
)

-- A byte is read as a consensus layer just if it is that layer's discriminant.
pub try_from_u8_iff : (n : ℕ) (layer : Layer) → (try_from_u8 n ≡ some layer) ↔ (n ≡ into_u8 layer)
unfolding try_from_u8 into_u8
try_from_u8_iff n Layer.no_consensus = ground arith
try_from_u8_iff n Layer.bitcoin = ground arith
try_from_u8_iff n Layer.liquid = ground arith
try_from_u8_iff n Layer.prime = ground arith
