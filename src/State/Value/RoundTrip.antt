-- ===== src/State/Value/RoundTrip.antt =====
-- Conversions between `StateValue` and sequences of field elements (src/state.rs).
use ultrasonic.Prelude.{
  ℕ, zero, suc, ◌<◌, ◌≤◌, ◌≡◌, refl, List, [], ◌∷◌, arith, length, get_elem?, done, panicked,
}
use ultrasonic.State.Value.{
  StateValue, none, single, double, triple, quadripple, get, into_iter, from_iter,
}

module _ {Fe : Type 0} where
  -- Building a value from the elements that a value yields gives that value back.
  pub from_iter-into_iter : (v : StateValue Fe) → from_iter (into_iter v) ≡ done v
  unfolding from_iter into_iter
  from_iter-into_iter none = refl
  from_iter-into_iter (single _) = refl
  from_iter-into_iter _ = refl

  -- A sequence of at most four elements is accepted, and the value built yields just its elements,
  -- in order; any longer sequence is a panic.
  pub from_iter_exact :
      (iter : List Fe)
      → (length iter ≤ 4 → (v : StateValue Fe) × (from_iter iter ≡ done v) × (into_iter v ≡ iter))
        × (4 < length iter → from_iter iter ≡ panicked)
  unfolding from_iter into_iter
  from_iter_exact [] = (λ _. (none, refl, refl), λ h. absurd (omega arith))
  from_iter_exact (a ∷ []) = (λ _. (single a, refl, refl), λ h. absurd (omega arith))
  from_iter_exact (a ∷ b ∷ []) = (λ _. (double a b, refl, refl), λ h. absurd (omega arith))
  from_iter_exact (a ∷ b ∷ c ∷ []) = (λ _. (triple a b c, refl, refl), λ h. absurd (omega arith))
  from_iter_exact (a ∷ b ∷ c ∷ d ∷ []) =
      (λ _. (quadripple a b c d, refl, refl), λ h. absurd (omega arith))
  from_iter_exact (a ∷ b ∷ c ∷ d ∷ e ∷ rest) = (λ h. absurd (omega arith), λ _. refl)

  -- `get` reads the sequence of elements at the index, and is absent beyond its end.
  pub get-into_iter : (v : StateValue Fe) (pos : ℕ) → get v pos ≡ get_elem? (into_iter v) pos
  unfolding get into_iter
  get-into_iter none pos = refl
  get-into_iter (single a) zero = refl
  get-into_iter (single a) (suc pos) = refl
  get-into_iter (double a b) zero = refl
  get-into_iter (double a b) (suc zero) = refl
  get-into_iter (double a b) (suc (suc pos)) = refl
  get-into_iter (triple a b c) zero = refl
  get-into_iter (triple a b c) (suc zero) = refl
  get-into_iter (triple a b c) (suc (suc zero)) = refl
  get-into_iter (triple a b c) (suc (suc (suc pos))) = refl
  get-into_iter (quadripple a b c d) zero = refl
  get-into_iter (quadripple a b c d) (suc zero) = refl
  get-into_iter (quadripple a b c d) (suc (suc zero)) = refl
  get-into_iter (quadripple a b c d) (suc (suc (suc zero))) = refl
  get-into_iter (quadripple a b c d) (suc (suc (suc (suc pos)))) = refl

  -- Values whose first four elements agree are equal: the four reads determine a value.
  pub get-injective : (v w : StateValue Fe) → ((pos : ℕ) → get v pos ≡ get w pos) → v ≡ w
  unfolding get
  get-injective v w h = ground (arith, h 0, h 1, h 2, h 3)
