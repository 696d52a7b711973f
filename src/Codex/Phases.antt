-- ===== src/Codex/Phases.antt =====
-- `Codex::verify` (src/codex.rs) cut at the comparison of the contract ids and between its phases.
use ultrasonic.Prelude.{◌≡◌, refl, true, false, List, [], Partial, done}
use ultrasonic.Externals.{Externals, Status}
use ultrasonic.State.Value.{StateValue}
use ultrasonic.Ids.{ContractId, contract_id_eq}
use ultrasonic.Operation.{Operation, VerifiedOperation, new_unchecked}
use ultrasonic.Codex.{Codex, Memory, LibRepo, Runtime}
use ultrasonic.Codex.Outcome.{Outcome, ok, err, ◌>>=◌, CallError, wrong_contract, not_found}
use ultrasonic.Codex.Verify.{
  check_inputs, read_immutable, lookup, ok_or, failure, main_result, context_of, resolver, verify,
}
use ultrasonic.Codex.Spec.{fresh}

module _ {E : Externals} (runtime : Runtime E) (repo : LibRepo E) (codex : Codex E)
    (memory : Memory E) (contract_id : ContractId) (operation : Operation E) where
  open runtime use {lock_vm, main_vm}

  abbrev pub vm_inputs : lock_vm.Vm
  vm_inputs = fresh runtime repo codex

  abbrev pub vm_main : main_vm.Vm
  vm_main = main_vm.with_config codex.verification_config codex.field_order

  -- Phase 2, on what was read.
  abbrev pub call :
      List (StateValue E.Fe) → List (StateValue E.Fe) → Outcome E.Fe (VerifiedOperation E)
  call values constants = do
    site ←
        ok_or runtime repo (lookup codex.verifiers operation.call_id) (not_found operation.call_id)
    main_result runtime repo operation (
        main_vm.exec vm_main site (context_of runtime repo operation values constants)
          (resolver runtime repo))

  -- What follows the comparison of the contract ids.
  abbrev pub checks : Outcome E.Fe (VerifiedOperation E)
  checks = do
    values ← check_inputs runtime repo memory operation.destructible_in vm_inputs []
    constants ← read_immutable runtime repo memory operation.immutable_in []
    call values constants

  pub verify-own :
      contract_id_eq operation.contract_id contract_id ≡ true
      → verify runtime repo codex contract_id operation memory ≡ checks
  unfolding verify
  verify-own h = rw h

  pub verify-foreign :
      contract_id_eq operation.contract_id contract_id ≡ false
      → verify runtime repo codex contract_id operation memory
        ≡ err (wrong_contract contract_id operation.contract_id)
  unfolding verify
  verify-foreign h = rw h

  pub main_result-ok :
      (r : Partial (Status × main_vm.Vm)) {v : VerifiedOperation E}
      → main_result runtime repo operation r ≡ ok v
      → (vm : main_vm.Vm) × (r ≡ done (Status.ok, vm))
        × (v ≡ new_unchecked (runtime.opid operation) operation)
  unfolding main_result
  main_result-ok Partial.panicked h = cc
  main_result-ok (done (Status.fail, vm)) h = cc
  main_result-ok (done (Status.ok, vm)) h = (vm, refl, cc)

  pub main_result-err :
      (r : Partial (Status × main_vm.Vm)) {e : CallError E.Fe}
      → main_result runtime repo operation r ≡ err e
      → (vm : main_vm.Vm) × (r ≡ done (Status.fail, vm))
        × (e ≡ failure runtime repo (main_vm.get vm runtime.regs.e1))
  unfolding main_result
  main_result-err Partial.panicked h = cc
  main_result-err (done (Status.ok, vm)) h = cc
  main_result-err (done (Status.fail, vm)) h = (vm, refl, cc)
