-- ===== src/Codex/Permute.antt =====
-- The order of the destructible inputs (src/codex.rs): their acceptance does not depend on it.
use mathlib.Core.Path.{subst}
use mathlib.Core.List.{Permᴰ}
use ultrasonic.Prelude.{◌≤◌, ◌≡◌, refl, sym, ap, ◌∙◌, List, [], ◌∷◌, length, arith, suc, map, some}
use ultrasonic.Externals.{Externals}
use ultrasonic.State.Value.{StateValue}
use ultrasonic.Operation.{Input}
use ultrasonic.Codex.{Codex, Memory, LibRepo, Runtime}
use ultrasonic.Codex.Outcome.{ok}
use ultrasonic.Codex.Verify.{check_inputs}
use ultrasonic.Codex.Spec.{ResetLaws, fresh, Unlocks, Accepts}
use ultrasonic.Codex.Context.{destructible_value, Accepts-values}
use ultrasonic.Codex.Inputs.{check_inputs-ok, check_inputs-Accepts}

-- Lists that are permutations of one another are equally long.
length-perm {ℓ} : {A : Type ℓ} {xs ys : List A} → Permᴰ xs ys → length xs ≡ length ys
length-perm Permᴰ.nil = refl
length-perm (Permᴰ.cons e p) = ap suc (length-perm p)
length-perm (Permᴰ.swap e f) = refl
length-perm (Permᴰ.trans p q) = length-perm p ∙ length-perm q

module _ {E : Externals} (runtime : Runtime E) (repo : LibRepo E) (codex : Codex E)
    (laws : ResetLaws runtime.lock_vm) (memory : Memory E) where
  abbrev Opens : Input E.Fe → StateValue E.Fe → Type 0
  Opens named value = Unlocks runtime repo codex memory named value

  abbrev AcceptsAll : List (Input E.Fe) → List (StateValue E.Fe) → Type 0
  AcceptsAll ins values = Accepts runtime repo codex memory ins values

  Accepts-perm :
      {ins ins' : List (Input E.Fe)} (values : List (StateValue E.Fe))
      → Permᴰ ins ins'
      → AcceptsAll ins values
      → (values' : List (StateValue E.Fe)) × Permᴰ values values' × AcceptsAll ins' values'
  Accepts-perm [] Permᴰ.nil h = ([], Permᴰ.nil, tt)
  Accepts-perm (v ∷ values) (Permᴰ.cons e p) (opens, h) =
      let (values', q, h') = Accepts-perm values p h in
      (v ∷ values', Permᴰ.cons refl q, (subst (λ i. Opens i v) e opens, h'))
  Accepts-perm (v ∷ w ∷ values) (Permᴰ.swap e f) (opens, (opens', h)) = (
    w ∷ v ∷ values,
    Permᴰ.swap refl refl,
    (subst (λ i. Opens i w) f opens', (subst (λ i. Opens i v) e opens, h)),
  )
  Accepts-perm values (Permᴰ.trans p p') h =
      let (values', q, h') = Accepts-perm values p h in
      let (values'', q', h'') = Accepts-perm values' p' h' in (values'', Permᴰ.trans q q', h'')
  Accepts-perm [] (Permᴰ.cons e p) h = absurd h
  Accepts-perm (v ∷ values) Permᴰ.nil h = absurd h
  Accepts-perm [] (Permᴰ.swap e f) h = absurd h
  Accepts-perm (v ∷ []) (Permᴰ.swap e f) h = absurd (h.1)

  -- When the loop over the destructible inputs accepts them, it accepts them in every other order, and
  -- reads the same values, in the order of the inputs: with each order, the values are one after the other
  -- what the memory has for the inputs. Inputs are within the bound of their vector, and a reset of the
  -- machine for locks makes it as it was made.
  pub check_inputs-perm :
      (ins ins' : List (Input E.Fe)) (values : List (StateValue E.Fe))
      → length ins ≤ 65535
      → Permᴰ ins ins'
      → check_inputs runtime repo memory ins (fresh runtime repo codex) [] ≡ ok values
      → (values' : List (StateValue E.Fe)) × Permᴰ values values'
        × (check_inputs runtime repo memory ins' (fresh runtime repo codex) [] ≡ ok values')
        × (map some values ≡ map (destructible_value runtime repo codex memory) ins)
        × (map some values' ≡ map (destructible_value runtime repo codex memory) ins')
  check_inputs-perm ins ins' values small p h =
      let (read, accepts, same) =
        check_inputs-ok runtime repo codex laws memory ins [] (omega arith) h in
      let (values', q, accepts') = Accepts-perm read p accepts in
      (
        values',
        subst (λ l. Permᴰ l values') (sym same) q,
        check_inputs-Accepts runtime repo codex laws memory ins' [] values'
            (omega (arith, length-perm p)) accepts',
        ap (map some) same ∙ Accepts-values runtime repo codex memory ins read accepts,
        Accepts-values runtime repo codex memory ins' values' accepts',
      )
