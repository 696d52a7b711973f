-- ===== src/Examples/Encodings.antt =====
-- Encodings of commitments that write every item behind its length.
use ultrasonic.Prelude.{◌≡◌, refl, ap₂, List, [], ◌∷◌, ◌++◌, length, arith, Bytes}
use ultrasonic.Operation.Commit.{Chunk, serialized, merkle, option_none, hashed, Hasher}

-- Lists of one length in front of two equal lists.
pub split {ℓ} :
    {A : Type ℓ} (xs ys r s : List A)
    → length xs ≡ length ys
    → xs ++ r ≡ ys ++ s
    → (xs ≡ ys) × (r ≡ s)
split [] [] r s l e = (refl, e)
split [] (y ∷ ys) r s l e = absurd (omega arith)
split (x ∷ xs) [] r s l e = absurd (omega arith)
split (x ∷ xs) (y ∷ ys) r s l e =
    let (same, rest) = split xs ys r s (omega arith) (cc) in (ap₂ ◌∷◌ (cc) same, rest)

abbrev pub framed : Bytes → Bytes → Bytes
framed b rest = length b ∷ b ++ rest

pub framed-injective : (b c r s : Bytes) → framed b r ≡ framed c s → (b ≡ c) × (r ≡ s)
framed-injective b c r s e = split b c r s (cc) (cc)

framed_all : List Bytes → Bytes → Bytes
framed_all [] rest = 0 ∷ rest
framed_all (b ∷ bs) rest = 1 ∷ framed b (framed_all bs rest)

write : Chunk → Bytes → Bytes
unfolding framed_all
write (serialized b) rest = 0 ∷ framed b rest
write (merkle bs) rest = 1 ∷ framed_all bs rest
write option_none rest = 2 ∷ rest
write (hashed b) rest = 3 ∷ framed b rest

unfoldable pub write_all : List Chunk → Bytes
unfolding write framed_all
write_all [] = []
write_all (c ∷ cs) = write c (write_all cs)

abbrev pub plain : Hasher
plain = record { commit = λ name. write_all; merkle_hash = write_all; strict_hash = write_all }

-- A hash that takes everything to the same bytes.
abbrev pub constant : Hasher
constant = record {
  commit = λ name chunks. [];
  merkle_hash = λ chunks. [];
  strict_hash = λ chunks. [];
}
