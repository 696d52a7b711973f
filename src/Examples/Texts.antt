-- ===== src/Examples/Texts.antt =====
-- Codings of bytes as text, for the parameters of src/state.rs and src/operation.rs.
use ultrasonic.Prelude.{
  ℕ, ◌+◌, ◌-◌, ◌≡◌, ◌≢◌, refl, ap, ap₂, Bool-cases, inl, inr, List, [], ◌∷◌, All, Bytes, ok, drop,
  if◌then◌else◌, arith,
}
use ultrasonic.Operation.Text.{OpidTextLaws}
use ultrasonic.State.RawData.{HexApi, HexLaws}
use ultrasonic.Baid64.{DisplayBaid64, Baid64, opid_text}
use ultrasonic.Baid64.RoundTrip.{Baid64Laws, opid_text-OpidTextLaws}

-- A code point from 200 on for each byte.
abbrev to_points : Bytes → List ℕ
to_points [] = []
to_points (b ∷ rest) = (200 + b) ∷ to_points rest

abbrev from_points : List ℕ → Bytes
from_points [] = []
from_points (c ∷ rest) = (c - 200) ∷ from_points rest

from_points-to_points : (b : Bytes) → from_points (to_points b) ≡ b
from_points-to_points [] = refl
from_points-to_points (b ∷ rest) = ap₂ ◌∷◌ (omega arith) (from_points-to_points rest)

to_points-digits : (b : Bytes) → All (λ c. c ≢ b'x') (to_points b)
to_points-digits [] = tt
to_points-digits (b ∷ rest) = ((λ e. omega arith), to_points-digits rest)

to_points-plain : (b : Bytes) → All (λ c. c ≢ b':') (to_points b)
to_points-plain [] = tt
to_points-plain (b ∷ rest) = ((λ e. omega arith), to_points-plain rest)

abbrev pub hex : HexApi (Unit {0})
hex = record { from_hex = λ s. ok (from_points s); to_hex = to_points }

pub hex-laws : HexLaws hex
hex-laws = record {
  from_hex-to_hex = λ b. ap ok (from_points-to_points b);
  to_hex-digits = to_points-digits;
}

-- Ids with a colon in front where the form has a prefix.
abbrev pub baid64 : Baid64 (Unit {0})
baid64 = record {
  fmt_baid64 = λ form payload. if form.prefix then b':' ∷ to_points payload else to_points payload;
  from_baid64_str = λ form s. ok (from_points (if form.prefix then drop 1 s else s));
}

baid64-read :
    (form : DisplayBaid64) (payload : Bytes)
    → baid64.from_baid64_str form (baid64.fmt_baid64 form payload) ≡ ok payload
baid64-read form payload = elim (Bool-cases form.prefix) [
  | inl marked ↦ rw marked (ap ok (from_points-to_points payload))
  | inr bare ↦ rw bare (ap ok (from_points-to_points payload))
]

pub baid64-Baid64Laws : Baid64Laws baid64
baid64-Baid64Laws = record {
  from_baid64_str-fmt_baid64 = λ form payload size. baid64-read form payload;
  fmt_baid64-plain = λ form payload bare. rw bare (to_points-plain payload);
}

pub texts : OpidTextLaws (opid_text baid64)
texts = opid_text-OpidTextLaws baid64-Baid64Laws
