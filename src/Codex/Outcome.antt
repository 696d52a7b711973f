-- ===== src/Codex/Outcome.antt =====
-- `CallError` of src/codex.rs, and results of code that returns one or panics.
use ultrasonic.Prelude.{◌≡◌, ◌≢◌, ◌⊎◌, inl, inr, refl, Option}
use ultrasonic.Ids.{ContractId}
use ultrasonic.Operation.{CellAddr, CallId}

pub data CallError (Fe : Type 0) : Type 0 where
  wrong_contract : ContractId → ContractId → CallError Fe
  not_found : CallId → CallError Fe
  no_read_once_input : CellAddr → CallError Fe
  no_immutable_input : CellAddr → CallError Fe
  lock : Option Fe → CallError Fe
  script : Fe → CallError Fe
  script_unspecified : CallError Fe

pub data Outcome {ℓ} (Fe : Type 0) (A : Type ℓ) : Type ℓ where
  ok : A → Outcome Fe A
  err : CallError Fe → Outcome Fe A
  panicked : Outcome Fe A

infixl 5 ◌>>=◌
abbrev pub ◌>>=◌ {ℓ κ} :
    {Fe : Type 0} {A : Type ℓ} {B : Type κ} → Outcome Fe A → (A → Outcome Fe B) → Outcome Fe B
panicked >>= next = panicked
err code >>= next = err code
ok made >>= next = next made

-- What the result of two steps says of each of them.
module _ {ℓ κ} {Fe : Type 0} {A : Type ℓ} {B : Type κ} where
  pub >>=-eq-ok :
      (first : Outcome Fe A) (next : A → Outcome Fe B) {result : B}
      → (first >>= next) ≡ ok result
      → (made : A) × (first ≡ ok made) × (next made ≡ ok result)
  >>=-eq-ok panicked next same = cc
  >>=-eq-ok (err code) next same = cc
  >>=-eq-ok (ok made) next same = (made, refl, same)

  -- An error comes of the first step, or of the second.
  pub >>=-eq-err :
      (first : Outcome Fe A) (next : A → Outcome Fe B) {code : CallError Fe}
      → (first >>= next) ≡ err code
      → (first ≡ err code) ⊎ ((made : A) × (first ≡ ok made) × (next made ≡ err code))
  >>=-eq-err panicked next same = cc
  >>=-eq-err (err code) next same = inl (cc)
  >>=-eq-err (ok made) next same = inr (made, refl, same)

  pub >>=-eq-panicked :
      (first : Outcome Fe A) (next : A → Outcome Fe B)
      → (first >>= next) ≡ panicked
      → (first ≡ panicked) ⊎ ((made : A) × (first ≡ ok made) × (next made ≡ panicked))
  >>=-eq-panicked panicked next same = inl refl
  >>=-eq-panicked (err code) next same = cc
  >>=-eq-panicked (ok made) next same = inr (made, refl, same)

  -- Where the first step does not panic, the second does.
  pub >>=-eq-panicked_later :
      (first : Outcome Fe A) (next : A → Outcome Fe B)
      → (first >>= next) ≡ panicked
      → first ≢ panicked
      → (made : A) × (first ≡ ok made) × (next made ≡ panicked)
  >>=-eq-panicked_later first next same calm = elim (>>=-eq-panicked first next same) [
    | inl broke ↦ absurd (calm broke)
    | inr later ↦ later
  ]
