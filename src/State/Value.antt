-- ===== src/State/Value.antt =====
-- `StateValue` of src/state.rs: the value of one memory cell, up to four field elements. The type of
-- field elements, `fe256`, is a parameter.
pub mod RoundTrip
use ultrasonic.Prelude.{
  ℕ, zero, suc, Bool, true, false, Option, some, List, [], ◌∷◌, map, if◌then◌else◌, is_some,
  Partial, done, panicked,
}
use mathlib.Core.Option.{none as absent}

pub data StateValue (Fe : Type 0) : Type 0 where
  none : StateValue Fe
  single : Fe → StateValue Fe
  double : Fe → Fe → StateValue Fe
  triple : Fe → Fe → Fe → StateValue Fe
  quadripple : Fe → Fe → Fe → Fe → StateValue Fe

module _ {Fe : Type 0} where
  -- `StateValue::new`
  unfoldable pub new : Fe → Fe → StateValue Fe
  new ty val = double ty val

  -- `StateValue::get`
  unfoldable pub get : StateValue Fe → ℕ → Option Fe
  get (single first) zero = some first
  get (double first _) zero = some first
  get (triple first _ _) zero = some first
  get (quadripple first _ _ _) zero = some first
  get (double _ second) (suc zero) = some second
  get (triple _ second _) (suc zero) = some second
  get (quadripple _ second _ _) (suc zero) = some second
  get (triple _ _ third) (suc (suc zero)) = some third
  get (quadripple _ _ third _) (suc (suc zero)) = some third
  get (quadripple _ _ _ fourth) (suc (suc (suc zero))) = some fourth
  get _ _ = absent

  -- `IntoIterator::into_iter`, as the list of the elements that the iterator yields.
  unfoldable pub into_iter : StateValue Fe → List Fe
  into_iter none = []
  into_iter (single first) = first ∷ []
  into_iter (double first second) = first ∷ second ∷ []
  into_iter (triple first second third) = first ∷ second ∷ third ∷ []
  into_iter (quadripple first second third fourth) = first ∷ second ∷ third ∷ fourth ∷ []

  -- One call of `Iterator::next` on the elements not yet taken.
  next : List Fe → Option Fe × List Fe
  next [] = (absent, [])
  next (x ∷ xs) = (some x, xs)

  -- The `match` on `len`; an `unwrap` of a missing element panics.
  build : ℕ → Option Fe → Option Fe → Option Fe → Option Fe → Partial (StateValue Fe)
  build zero _ _ _ _ = done none
  build (suc zero) (some a) _ _ _ = done (single a)
  build (suc (suc zero)) (some a) (some b) _ _ = done (double a b)
  build (suc (suc (suc zero))) (some a) (some b) (some c) _ = done (triple a b c)
  build (suc (suc (suc (suc zero)))) (some a) (some b) (some c) (some d) = done (quadripple a b c d)
  build _ _ _ _ _ = panicked

  -- `FromIterator<fe256>::from_iter`: four elements are taken, and a fifth is a panic.
  unfoldable pub from_iter : List Fe → Partial (StateValue Fe)
  unfolding next build
  from_iter iter =
      let (first, iter₁) = next iter in
      let (second, iter₂) = next iter₁ in
      let (third, iter₃) = next iter₂ in
      let (fourth, iter₄) = next iter₃ in
      let (fifth, _) = next iter₄ in
      if is_some fifth
      then panicked
      else build
          (if is_some fourth
            then 4
            else if is_some third
            then 3
            else if is_some second
            then 2
            else if is_some first
            then 1
            else 0)
          first second third fourth

-- `FromIterator<u256>::from_iter`, over the conversion `fe256::from`.
unfoldable pub from_iter_u256 : {Fe : Type 0} → (ℕ → Fe) → List ℕ → Partial (StateValue Fe)
from_iter_u256 from_u256 iter = from_iter (map from_u256 iter)
