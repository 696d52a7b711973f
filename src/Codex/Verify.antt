-- ===== src/Codex/Verify.antt =====
-- `Codex::verify` of src/codex.rs, phase by phase.
use mathlib.Core.Bool.{not}
use ultrasonic.Prelude.{
  ℕ, ◌+◌, Option, none, some, List, [], ◌∷◌, ◌++◌, length, ltb, ◌==◌, if◌then◌else◌, Partial, done,
  panicked,
}
use ultrasonic.Externals.{Externals, Status}
use ultrasonic.State.{StateCell}
use ultrasonic.State.Value
use ultrasonic.State.Value.{StateValue}
use ultrasonic.State.Auth.{to_fe256}
use ultrasonic.Ids.{ContractId, contract_id_eq}
use ultrasonic.Operation.{CellAddr, CallId, Input, Operation, VerifiedOperation, new_unchecked}
use ultrasonic.Isa.Context.{VmContext}
use ultrasonic.Codex.{Codex, Memory, LibRepo, Runtime}
use ultrasonic.Codex.Outcome.{
  Outcome, ok, err, ◌>>=◌, CallError, wrong_contract, not_found, no_read_once_input,
  no_immutable_input, lock, script, script_unspecified,
}

-- `SmallVec::push`: a full vector, of 2 ^ 16 - 1 items, refuses, and the caller drops the refusal.
unfoldable pub push {ℓ} : {A : Type ℓ} → List A → A → List A
push items item = if ltb (length items) 65535 then items ++ item ∷ [] else items

-- `BTreeMap::get`
unfoldable pub lookup {ℓ} : {A : Type ℓ} → List (CallId × A) → CallId → Option A
lookup [] id = none
lookup ((key, value) ∷ rest) id = if key == id then some value else lookup rest id

module _ {E : Externals} (runtime : Runtime E) (repo : LibRepo E) where
  open runtime use {lock_vm, main_vm, regs, lib_id, lib_id_eq}
  open regs use {e1, e2, e3, e4, e5, e8}

  unfoldable pub checked : E.LibId → Option E.Lib → Partial (Option E.Lib)
  checked id none = done none
  checked id (some lib) = if not (lib_id_eq (lib_id lib) id) then panicked else done (some lib)

  -- The closure `resolver`.
  unfoldable pub resolver : E.LibId → Partial (Option E.Lib)
  unfolding checked
  resolver id = checked id (repo.get_lib id)

  -- The loop that puts the witness into `E2` to `E5`: it ends at the first absent element.
  unfoldable pub put_witness : lock_vm.Vm → StateValue E.Fe → ℕ → List E.RegE → lock_vm.Vm
  put_witness vm witness number [] = vm
  put_witness vm witness number (reg ∷ rest) = elim (Value.get witness number) [
    | none ↦ vm
    | some el ↦ put_witness (lock_vm.set vm reg el) witness (number + 1) rest
  ]

  -- The machine as a lock script finds it.
  unfoldable pub armed : lock_vm.Vm → StateCell E → StateValue E.Fe → lock_vm.Vm
  unfolding put_witness
  armed vm cell witness =
      put_witness (lock_vm.set vm e1 (to_fe256 cell.auth)) witness 0 (e2 ∷ e3 ∷ e4 ∷ e5 ∷ [])

  -- What is done with the status of a lock script.
  unfoldable pub lock_result : Partial (Status × lock_vm.Vm) → Outcome E.Fe lock_vm.Vm
  lock_result panicked = Outcome.panicked
  lock_result (done (Status.fail, vm)) = err (lock (lock_vm.get vm e8))
  lock_result (done (Status.ok, vm)) = ok (lock_vm.reset vm)

  unfoldable pub run_lock :
      lock_vm.Vm → StateCell E → StateValue E.Fe → Option E.LibSite → Outcome E.Fe lock_vm.Vm
  unfolding lock_result
  run_lock vm cell witness none = ok vm
  run_lock vm cell witness (some site) =
      lock_result (lock_vm.exec (armed vm cell witness) site tt resolver)

  -- `ok_or`
  unfoldable pub ok_or : {A : Type 0} → Option A → CallError E.Fe → Outcome E.Fe A
  ok_or none e = err e
  ok_or (some a) e = ok a

  -- The body of the loop over the inputs, over the machine and the data read so far.
  unfoldable pub check_input :
      Memory E
      → Input E.Fe
      → lock_vm.Vm
      → List (StateValue E.Fe)
      → Outcome E.Fe (lock_vm.Vm × List (StateValue E.Fe))
  unfolding run_lock ok_or push
  check_input memory input vm inputs = do
    cell ← ok_or (memory.destructible input.addr) (no_read_once_input input.addr)
    vm' ← run_lock vm cell input.witness cell.lock
    ok (vm', push inputs cell.«data»)

  -- Phase 1, the destructible inputs.
  unfoldable pub check_inputs :
      Memory E
      → List (Input E.Fe)
      → lock_vm.Vm
      → List (StateValue E.Fe)
      → Outcome E.Fe (List (StateValue E.Fe))
  unfolding check_input
  check_inputs memory [] vm inputs = ok inputs
  check_inputs memory (input ∷ rest) vm inputs = do
    (vm', inputs') ← check_input memory input vm inputs
    check_inputs memory rest vm' inputs'

  -- Phase 1, the immutable inputs.
  unfoldable pub read_immutable :
      Memory E → List CellAddr → List (StateValue E.Fe) → Outcome E.Fe (List (StateValue E.Fe))
  unfolding ok_or push
  read_immutable memory [] inputs = ok inputs
  read_immutable memory (addr ∷ rest) inputs = do
    value ← ok_or (memory.immutable addr) (no_immutable_input addr)
    read_immutable memory rest (push inputs value)

  -- What is done with the status of the verifier.
  unfoldable pub failure : Option E.Fe → CallError E.Fe
  failure (some err_code) = script err_code
  failure none = script_unspecified

  unfoldable pub main_result :
      Operation E → Partial (Status × main_vm.Vm) → Outcome E.Fe (VerifiedOperation E)
  unfolding failure new_unchecked
  main_result operation panicked = Outcome.panicked
  main_result operation (done (Status.ok, vm)) =
      ok (new_unchecked (runtime.opid operation) operation)
  main_result operation (done (Status.fail, vm)) = err (failure (main_vm.get vm e1))

  unfoldable pub context_of :
      Operation E → List (StateValue E.Fe) → List (StateValue E.Fe) → VmContext E
  context_of operation destructible_inputs immutable_inputs = record {
    destructible_input = destructible_inputs;
    immutable_input = immutable_inputs;
    destructible_output = operation.destructible_out;
    immutable_output = operation.immutable_out;
  }

  -- `Codex::verify`
  unfoldable pub verify :
      Codex E → ContractId → Operation E → Memory E → Outcome E.Fe (VerifiedOperation E)
  unfolding check_inputs read_immutable lookup main_result context_of
  verify codex contract_id operation memory =
      if not (contract_id_eq operation.contract_id contract_id)
      then err (wrong_contract contract_id operation.contract_id)
      else do
        let vm_inputs = lock_vm.with_config codex.input_config codex.field_order
        destructible_inputs ← check_inputs memory operation.destructible_in vm_inputs []
        immutable_inputs ← read_immutable memory operation.immutable_in []
        entry_point ← ok_or (lookup codex.verifiers operation.call_id) (not_found operation.call_id)
        let vm_main = main_vm.with_config codex.verification_config codex.field_order
        main_result operation (
            main_vm.exec vm_main entry_point
              (context_of operation destructible_inputs immutable_inputs) resolver)
