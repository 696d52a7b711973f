-- ===== src/Codex/Decides.antt =====
-- That `Codex::verify` (src/codex.rs) returns, and what.
use ultrasonic.Prelude.{◌≡◌, ◌⊎◌, inl, inr, refl, ap, ◌∙◌}
use ultrasonic.Externals.{Externals}
use ultrasonic.Ids.{ContractId}
use ultrasonic.Operation.{Operation, new_unchecked}
use ultrasonic.Codex.{Codex, Memory, LibRepo, Runtime}
use ultrasonic.Codex.Outcome.{Outcome, ok, err, CallError, panicked}
use ultrasonic.Codex.Verify.{verify}
use ultrasonic.Codex.Spec.{ResetLaws, IsValid, Fails}
use ultrasonic.Codex.Correct.{IsConfined, verify-ok_iff, verify-err_iff}
use ultrasonic.Codex.Panics.{PanicsInResolver, Cheats, verify-panicked}

outcome-cases :
    {Fe A : Type 0} (o : Outcome Fe A)
    → ((a : A) × (o ≡ ok a)) ⊎ ((e : CallError Fe) × (o ≡ err e)) ⊎ (o ≡ panicked)
outcome-cases (ok a) = inl (a, refl)
outcome-cases (err e) = inr (inl (e, refl))
outcome-cases panicked = inr (inr refl)

module _ {E : Externals} (runtime : Runtime E) (repo : LibRepo E) (codex : Codex E)
    (laws : ResetLaws runtime.lock_vm) (lock_law : PanicsInResolver runtime.lock_vm)
    (main_law : PanicsInResolver runtime.main_vm) (memory : Memory E) (contract_id : ContractId)
    (operation : Operation E) where
  -- The verification of an operation whose vectors are within the bounds of their types returns: the
  -- operation with its id, where it is valid, or the error of the first check that it does not pass.
  -- The machines panic only where the resolver of libraries does, the repository answers no request
  -- with a library of another id, and a reset of the machine for locks makes it as it was made.
  pub verify-Decides :
      IsConfined operation
      → ¬ Cheats runtime repo
      → ((verify runtime repo codex contract_id operation memory
            ≡ ok (new_unchecked (runtime.opid operation) operation))
          × IsValid runtime repo codex memory contract_id operation)
        ⊎ ((e : CallError E.Fe) × (verify runtime repo codex contract_id operation memory ≡ err e)
            × Fails runtime repo codex memory contract_id operation e)
  verify-Decides small honest =
      elim (outcome-cases (verify runtime repo codex contract_id operation memory)) [
        | inl (v, h) ↦
            let (valid, cached) =
              (verify-ok_iff runtime repo codex laws memory contract_id operation v small).0 h in
            inl (h ∙ ap ok cached, valid)
        | inr (inl (e, h)) ↦ inr (
          e,
          h,
          (verify-err_iff runtime repo codex laws memory contract_id operation e small).0 h,
        )
        | inr (inr h) ↦ absurd (
            honest
              (verify-panicked runtime repo lock_law main_law memory codex contract_id operation h))
      ]
