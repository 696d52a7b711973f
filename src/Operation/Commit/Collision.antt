-- ===== src/Operation/Commit/Collision.antt =====
-- Uses of a hash, and what it means that two things are the same unless their hashes collide
-- (src/operation.rs, src/issue.rs). A collision is one between the inputs that the two things feed.
use Prim.Native.String.{String}
use mathlib.Core.HLevel.{Discrete}
use mathlib.Core.List.Memᴰ.{Memᴰ, head, tail}
use native.Mathlib.Decide.{ℕ_discrete}
use ultrasonic.Prelude.{◌≡◌, ◌≢◌, ◌⊎◌, ◌↔◌, inl, inr, refl, ap₂, List, [], ◌∷◌, map, Bytes}
use ultrasonic.Operation.Commit.{Chunk, Hasher}

-- What is fed to one use of a hash: under the tag of a `CommitmentId`, as a `MerkleHash`, and as a
-- `StrictHash`.
pub data Feed : Type 0 where
  tagged : String → List Chunk → Feed
  as_merkle : List Chunk → Feed
  as_strict : List Chunk → Feed

abbrev pub digest : Hasher → Feed → Bytes
digest hasher (tagged tag chunks) = hasher.commit tag chunks
digest hasher (as_merkle chunks) = hasher.merkle_hash chunks
digest hasher (as_strict chunks) = hasher.strict_hash chunks

abbrev pub chunks_of : Feed → List Chunk
chunks_of (tagged tag chunks) = chunks
chunks_of (as_merkle chunks) = chunks
chunks_of (as_strict chunks) = chunks

-- Two inputs, one that `P` has and one that `Q` has, that differ and hash alike.
pub record Clash (hasher : Hasher) (P Q : Feed → Type 0) : Type 0 where
  pub left : Feed
  pub right : Feed
  pub fed_left : P left
  pub fed_right : Q right
  pub differ : chunks_of left ≢ chunks_of right
  pub alike : digest hasher left ≡ digest hasher right

pub Clash-map :
    {hasher : Hasher} {P Q R S : Feed → Type 0}
    → ((f : Feed) → P f → R f)
    → ((f : Feed) → Q f → S f)
    → Clash hasher P Q
    → Clash hasher R S
Clash-map p q clash = record {
  left = clash.left;
  right = clash.right;
  fed_left = p clash.left clash.fed_left;
  fed_right = q clash.right clash.fed_right;
  differ = clash.differ;
  alike = clash.alike;
}

-- Steps that end at the first collision.
infixl 5 ◌>>=◌
abbrev pub ◌>>=◌ : {A B C : Type 0} → A ⊎ C → (A → B ⊎ C) → B ⊎ C
inl a >>= next = next a
inr c >>= next = inr c

abbrev pub over : {A C D : Type 0} → (C → D) → A ⊎ C → A ⊎ D
over f (inl a) = inl a
over f (inr c) = inr (f c)

chunks-discrete : Discrete (List Chunk)
chunks-discrete = hlevel ℕ_discrete

-- Inputs that hash alike are the same, unless they collide.
pub unless_clash :
    {hasher : Hasher} {P Q : Feed → Type 0} (x y : Feed)
    → P x
    → Q y
    → digest hasher x ≡ digest hasher y
    → (chunks_of x ≡ chunks_of y) ⊎ Clash hasher P Q
unless_clash x y px qy e = elim (chunks-discrete (chunks_of x) (chunks_of y)) [
  | yes same ↦ inl same
  | no other ↦
      inr (record { left = x; right = y; fed_left = px; fed_right = qy; differ = other; alike = e })
]

-- Lists whose items have the same ids, item by item.
pub map_unless :
    {A C : Type 0} (f : A → Bytes) (xs ys : List A)
    → ((x y : A) → Memᴰ x xs → Memᴰ y ys → f x ≡ f y → (x ≡ y) ⊎ C)
    → map f xs ≡ map f ys
    → (xs ≡ ys) ⊎ C
map_unless f [] [] h e = inl refl
map_unless f [] (y ∷ ys) h e = absurd (cc)
map_unless f (x ∷ xs) [] h e = absurd (cc)
map_unless f (x ∷ xs) (y ∷ ys) h e = do
  first ← h x y (head refl) (head refl) (cc)
  rest ← map_unless f xs ys (λ a b m n. h a b (tail m) (tail n)) (cc)
  inl (ap₂ ◌∷◌ first rest)

-- An equivalence with one direction that a collision may break.
pub iff_unless : {X Y C : Type 0} → Dec X → (X → Y ⊎ C) → (Y → X) → (X ↔ Y) ⊎ C
iff_unless (yes x) to from = do y ← to x; inl (λ _. y, from)
iff_unless (no n) to from = inl (λ x. absurd (n x), from)

-- The same for an equivalent left side.
pub unless_map : {X Y C : Type 0} → X ⊎ C → (X → Y) → Y ⊎ C
unless_map (inl x) f = inl (f x)
unless_map (inr c) f = inr c
