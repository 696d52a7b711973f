-- ===== src/Codex/Correct.antt =====
-- `Codex::verify` (src/codex.rs) is exact: it accepts the valid operations and no others, and refuses
-- every other with the error of the first check that does not pass.
use ultrasonic.Prelude.{
  ℕ, ◌+◌, ◌≤◌, ◌≡◌, ◌↔◌, refl, sym, ap, ap₂, ◌∙◌, true, Bool-cases, List, [], length, arith, inl,
  inr,
}
use ultrasonic.Externals.{Externals}
use ultrasonic.State.Value.{StateValue}
use ultrasonic.Ids.{ContractId, contract_id_eq, contract_id_eq_iff}
use ultrasonic.Operation.{Operation, VerifiedOperation, new_unchecked}
use ultrasonic.Codex.{Codex, Memory, LibRepo, Runtime}
use ultrasonic.Codex.Outcome.{ok, err, >>=-eq-ok, >>=-eq-err, CallError}
use ultrasonic.Codex.Verify.{ok_or, main_result, verify}
use ultrasonic.Codex.Spec.{
  ResetLaws, Readable, IsValid, Fails, foreign, blocked, unread, uncallable, rejected,
}
use ultrasonic.Codex.Phases.{
  call, checks, verify-own, verify-foreign, main_result-ok, main_result-err,
}
use ultrasonic.Codex.Inputs.{
  ok_or-ok, ok_or-err, check_inputs-ok, check_inputs-Accepts, check_inputs-err, check_inputs-Stops,
}
use ultrasonic.Codex.Reads.{
  read_immutable-ok, read_immutable-Reads, read_immutable-err, read_immutable-Unread,
}

room : {n : ℕ} → n ≤ 65535 → 0 + n ≤ 65535
room h = omega arith

-- `SmallVec` holds at most 2 ^ 16 - 1 items.
abbrev pub IsConfined : {E : Externals} → Operation E → Type 0
IsConfined operation =
    (length operation.destructible_in ≤ 65535) × (length operation.immutable_in ≤ 65535)

module _ {E : Externals} (runtime : Runtime E) (repo : LibRepo E) (codex : Codex E)
    (laws : ResetLaws runtime.lock_vm) (memory : Memory E) (contract_id : ContractId)
    (operation : Operation E) where
  checks-ok :
      {v : VerifiedOperation E}
      → IsConfined operation
      → operation.contract_id ≡ contract_id
      → checks runtime repo codex memory contract_id operation ≡ ok v
      → IsValid runtime repo codex memory contract_id operation
        × (v ≡ new_unchecked (runtime.opid operation) operation)
  checks-ok small own h =
      let (read, inputs, h₁) = >>=-eq-ok _ _ h in
      let (values, accepts, same) =
        check_inputs-ok runtime repo codex laws memory operation.destructible_in [] (room small.0)
          inputs in
      let (read', fixed, h₂) = >>=-eq-ok _ _ h₁ in
      let (constants, reads, same') =
        read_immutable-ok runtime repo codex memory operation.immutable_in [] (room small.1)
          fixed in
      let (site, found, h₃) =
        >>=-eq-ok _ _
          (sym (ap₂ (call runtime repo codex memory contract_id operation) same same') ∙ h₂) in
      let (vm, runs, cached) =
        main_result-ok runtime repo codex memory contract_id operation _ h₃ in
      (
        (values, constants, site, vm, (own, accepts, reads), ok_or-ok runtime repo _ _ found, runs),
        cached,
      )

  call-err :
      (values constants : List (StateValue E.Fe)) {e : CallError E.Fe}
      → Readable runtime repo codex memory contract_id operation values constants
      → call runtime repo codex memory contract_id operation values constants ≡ err e
      → Fails runtime repo codex memory contract_id operation e
  call-err values constants readable h =
      let split = >>=-eq-err _ _ h in
      elim split [
        | inl absent ↦
            let (gone, code) = ok_or-err runtime repo _ absent in
            uncallable values constants readable gone code
        | inr (site, found, h₁) ↦
            let (vm, runs, code) =
              main_result-err runtime repo codex memory contract_id operation _ h₁ in
            rejected values constants site vm readable (ok_or-ok runtime repo _ _ found) runs code
      ]

  checks-err :
      {e : CallError E.Fe}
      → IsConfined operation
      → operation.contract_id ≡ contract_id
      → checks runtime repo codex memory contract_id operation ≡ err e
      → Fails runtime repo codex memory contract_id operation e
  checks-err small own h =
      let split = >>=-eq-err _ _ h in
      elim split [
        | inl stop ↦ blocked own (
            check_inputs-err runtime repo codex laws memory operation.destructible_in []
              (room small.0) stop)
        | inr (read, inputs, h₁) ↦
            let (values, accepts, same) =
              check_inputs-ok runtime repo codex laws memory operation.destructible_in []
                (room small.0) inputs in
            let split₁ = >>=-eq-err _ _ h₁ in
            elim split₁ [
              | inl stop ↦
                  let (addr, absent, code) =
                    read_immutable-err runtime repo codex memory operation.immutable_in []
                      (room small.1) stop in
                  unread values addr own accepts absent code
              | inr (read', fixed, h₂) ↦
                  let (constants, reads, same') =
                    read_immutable-ok runtime repo codex memory operation.immutable_in []
                      (room small.1) fixed in
                  call-err values constants (own, accepts, reads)
                    (sym (ap₂ (call runtime repo codex memory contract_id operation) same same')
                      ∙ h₂)
            ]
      ]

  -- Both loops succeed on an operation that is readable.
  checks-Readable :
      (values constants : List (StateValue E.Fe))
      → IsConfined operation
      → Readable runtime repo codex memory contract_id operation values constants
      → checks runtime repo codex memory contract_id operation
        ≡ call runtime repo codex memory contract_id operation values constants
  checks-Readable values constants small (own, accepts, reads) =
      rw
        (check_inputs-Accepts runtime repo codex laws memory operation.destructible_in [] values
          (room small.0) accepts)
        (rw
          (read_immutable-Reads runtime repo codex memory operation.immutable_in [] constants
            (room small.1) reads)
          refl)

  own-true :
      operation.contract_id ≡ contract_id → contract_id_eq operation.contract_id contract_id ≡ true
  own-true own = (contract_id_eq_iff _ _).1 own

  verify-Readable :
      (values constants : List (StateValue E.Fe))
      → IsConfined operation
      → Readable runtime repo codex memory contract_id operation values constants
      → verify runtime repo codex contract_id operation memory
        ≡ call runtime repo codex memory contract_id operation values constants
  verify-Readable values constants small readable =
      verify-own runtime repo codex memory contract_id operation (own-true readable.0)
      ∙ checks-Readable values constants small readable

  -- An operation whose vectors are within the bounds of their types is verified exactly when it is
  -- valid, and what is returned then is the operation with its id. A reset of the machine for locks
  -- is taken to make it as it was made.
  pub verify-ok_iff :
      (v : VerifiedOperation E)
      → IsConfined operation
      → (verify runtime repo codex contract_id operation memory ≡ ok v) ↔ (
          IsValid runtime repo codex memory contract_id operation
          × (v ≡ new_unchecked (runtime.opid operation) operation))
  unfolding main_result ok_or
  verify-ok_iff v small = (
    λ h. elim (Bool-cases (contract_id_eq operation.contract_id contract_id)) [
      | inl own ↦
          checks-ok small ((contract_id_eq_iff _ _).0 own)
            (sym (verify-own runtime repo codex memory contract_id operation own) ∙ h)
      | inr other ↦ cc (verify-foreign runtime repo codex memory contract_id operation other, h)
    ],
    λ ((values, constants, site, vm, readable, found, runs), cached).
        verify-Readable values constants small readable ∙ rw found (rw runs (rw cached refl)),
  )

  verify-Fails :
      {e : CallError E.Fe}
      → IsConfined operation
      → Fails runtime repo codex memory contract_id operation e
      → verify runtime repo codex contract_id operation memory ≡ err e
  unfolding main_result ok_or
  verify-Fails small (foreign other code) =
      elim (Bool-cases (contract_id_eq operation.contract_id contract_id)) [
        | inl own ↦ absurd (other ((contract_id_eq_iff _ _).0 own))
        | inr differs ↦
            verify-foreign runtime repo codex memory contract_id operation differs
            ∙ ap err (sym code)
      ]
  verify-Fails {e} small (blocked own stops) =
      verify-own runtime repo codex memory contract_id operation (own-true own)
      ∙ rw
          (check_inputs-Stops runtime repo codex laws memory operation.destructible_in [] e
            (room small.0) stops)
          refl
  verify-Fails small (unread values addr own accepts absent code) =
      verify-own runtime repo codex memory contract_id operation (own-true own)
      ∙ rw
          (check_inputs-Accepts runtime repo codex laws memory operation.destructible_in [] values
            (room small.0) accepts)
          (rw
            (read_immutable-Unread runtime repo codex memory operation.immutable_in [] addr
              (room small.1) absent)
            (ap err (sym code)))
  verify-Fails small (uncallable values constants readable gone code) =
      verify-Readable values constants small readable ∙ rw gone (ap err (sym code))
  verify-Fails small (rejected values constants site vm readable found runs code) =
      verify-Readable values constants small readable ∙ rw found (rw runs (ap err (sym code)))

  -- An operation whose vectors are within the bounds of their types is refused with an error exactly
  -- when that is the error of the first check it does not pass. A reset of the machine for locks is
  -- taken to make it as it was made.
  pub verify-err_iff :
      (e : CallError E.Fe)
      → IsConfined operation
      → (verify runtime repo codex contract_id operation memory ≡ err e)
        ↔ Fails runtime repo codex memory contract_id operation e
  verify-err_iff e small = (
    λ h. elim (Bool-cases (contract_id_eq operation.contract_id contract_id)) [
      | inl own ↦
          checks-err small ((contract_id_eq_iff _ _).0 own)
            (sym (verify-own runtime repo codex memory contract_id operation own) ∙ h)
      | inr other ↦
          foreign (λ own. cc (own-true own, other))
            (cc (verify-foreign runtime repo codex memory contract_id operation other, h))
    ],
    verify-Fails small,
  )
