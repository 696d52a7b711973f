-- ===== src/Codex/Panics.antt =====
-- When `Codex::verify` (src/codex.rs) panics.
use ultrasonic.Prelude.{
  ◌≡◌, ◌≢◌, refl, sym, ◌∙◌, false, Bool-cases, Option, none, some, Option-cases, List, [], ◌∷◌, inl,
  inr, Partial, done, panicked,
}
use ultrasonic.Externals.{Externals, Status}
use ultrasonic.State.{StateCell}
use ultrasonic.State.Value.{StateValue}
use ultrasonic.Ids.{ContractId, contract_id_eq}
use ultrasonic.Operation.{CellAddr, Input, Operation}
use ultrasonic.Codex.{Codex, Memory, LibRepo, VmApi, Runtime}
use ultrasonic.Codex.Outcome.{
  Outcome, ◌>>=◌, >>=-eq-panicked, >>=-eq-panicked_later, CallError, no_immutable_input,
}
use ultrasonic.Codex.Verify.{
  push, checked, resolver, lock_result, run_lock, ok_or, check_input, check_inputs, read_immutable,
  lookup, main_result, verify,
}
use ultrasonic.Codex.Spec.{fresh}
use ultrasonic.Codex.Phases.{call, checks, verify-own, verify-foreign}

-- `Vm::exec` does not panic by itself: when it does, the resolver of libraries panicked in it.
abbrev pub PanicsInResolver : {E : Externals} {Context : Type 0} → VmApi E Context → Type 0
PanicsInResolver {E} {Context} api =
    (vm : api.Vm) (site : E.LibSite) (context : Context)
    (resolve : E.LibId → Partial (Option E.Lib))
    → api.exec vm site context resolve ≡ panicked
    → (id : E.LibId) × (resolve id ≡ panicked)

module _ {E : Externals} (runtime : Runtime E) (repo : LibRepo E) where
  open runtime use {lock_vm, main_vm}

  -- The repository answers a request with a library of another id.
  abbrev pub Cheats : Type 0
  Cheats =
      (id : E.LibId) × (lib : E.Lib) × (repo.get_lib id ≡ some lib)
      × (runtime.lib_id_eq (runtime.lib_id lib) id ≡ false)

  resolver-panicked : (id : E.LibId) → resolver runtime repo id ≡ panicked → Cheats
  unfolding resolver checked
  resolver-panicked id h = elim (Option-cases (repo.get_lib id)) [
    | inl absent ↦ let h' : checked runtime repo id none ≡ panicked = rw absent at h in cc h'
    | inr (lib, found) ↦ elim (Bool-cases (runtime.lib_id_eq (runtime.lib_id lib) id)) [
      | inl same ↦ let h' : _ = rw (found, same) at h in cc h'
      | inr other ↦ (id, lib, found, other)
    ]
  ]

  ok_or-panicked :
      {A : Type 0} (o : Option A) (e : CallError E.Fe) → ok_or runtime repo o e ≢ Outcome.panicked
  unfolding ok_or
  ok_or-panicked none e = λ h. cc h
  ok_or-panicked (some a) e = λ h. cc h

  lock_result-panicked :
      (r : Partial (Status × lock_vm.Vm))
      → lock_result runtime repo r ≡ Outcome.panicked
      → r ≡ panicked
  unfolding lock_result
  lock_result-panicked panicked h = refl
  lock_result-panicked (done (Status.ok, vm)) h = cc
  lock_result-panicked (done (Status.fail, vm)) h = cc

  main_result-panicked :
      (operation : Operation E) (r : Partial (Status × main_vm.Vm))
      → main_result runtime repo operation r ≡ Outcome.panicked
      → r ≡ panicked
  unfolding main_result
  main_result-panicked operation panicked h = refl
  main_result-panicked operation (done (Status.ok, vm)) h = cc
  main_result-panicked operation (done (Status.fail, vm)) h = cc

  module _ (lock_law : PanicsInResolver lock_vm) (main_law : PanicsInResolver main_vm)
      (memory : Memory E) where
    run_lock-panicked :
        (vm : lock_vm.Vm) (cell : StateCell E) (witness : StateValue E.Fe) (lk : Option E.LibSite)
        → run_lock runtime repo vm cell witness lk ≡ Outcome.panicked
        → Cheats
    unfolding run_lock
    run_lock-panicked vm cell witness none h = cc
    run_lock-panicked vm cell witness (some site) h =
        let (id, broke) = lock_law _ site tt _ (lock_result-panicked _ h) in
        resolver-panicked id broke

    check_input-panicked :
        (input : Input E.Fe) (vm : lock_vm.Vm) (acc : List (StateValue E.Fe))
        → check_input runtime repo memory input vm acc ≡ Outcome.panicked
        → Cheats
    unfolding check_input
    check_input-panicked input vm acc h =
        let (cell, found, h₁) =
          >>=-eq-panicked_later _ _ h (ok_or-panicked (memory.destructible input.addr) _) in
        let split = >>=-eq-panicked (run_lock runtime repo vm cell input.witness cell.lock) _ h₁ in
        elim split [
          | inl broke ↦ run_lock-panicked vm cell input.witness cell.lock broke
          | inr (vm', opened, h₂) ↦ cc
        ]

    check_inputs-panicked :
        (ins : List (Input E.Fe)) (vm : lock_vm.Vm) (acc : List (StateValue E.Fe))
        → check_inputs runtime repo memory ins vm acc ≡ Outcome.panicked
        → Cheats
    unfolding check_inputs
    check_inputs-panicked [] vm acc h = cc
    check_inputs-panicked (input ∷ rest) vm acc h =
        let split = >>=-eq-panicked _ _ h in
        elim split [
          | inl broke ↦ check_input-panicked input vm acc broke
          | inr (state, first, h₁) ↦ check_inputs-panicked rest state.0 state.1 h₁
        ]

    read_immutable-panicked :
        (addrs : List CellAddr) (acc : List (StateValue E.Fe))
        → read_immutable runtime repo memory addrs acc ≢ Outcome.panicked
    unfolding read_immutable
    read_immutable-panicked [] acc = λ h. cc h
    read_immutable-panicked (addr ∷ rest) acc = λ h.
        let (value, found, h₁) =
          >>=-eq-panicked_later
            (ok_or runtime repo (memory.immutable addr) (no_immutable_input addr))
            (λ value. read_immutable runtime repo memory rest (push acc value)) h
            (ok_or-panicked _ _) in
        read_immutable-panicked rest _ h₁

    -- When the machines panic only where the resolver does, the verification of an operation panics
    -- only if the repository answered with a library of another id.
    pub verify-panicked :
        (codex : Codex E) (contract_id : ContractId) (operation : Operation E)
        → verify runtime repo codex contract_id operation memory ≡ Outcome.panicked
        → Cheats
    unfolding verify
    verify-panicked codex contract_id operation h =
        elim (Bool-cases (contract_id_eq operation.contract_id contract_id)) [
          | inr other ↦ cc (verify-foreign runtime repo codex memory contract_id operation other, h)
          | inl own ↦
              let opened : checks runtime repo codex memory contract_id operation
                  ≡ Outcome.panicked =
                sym (verify-own runtime repo codex memory contract_id operation own) ∙ h in
              let split =
                >>=-eq-panicked
                  (check_inputs runtime repo memory operation.destructible_in
                    (fresh runtime repo codex) [])
                  (λ values.
                    read_immutable runtime repo memory operation.immutable_in []
                    >>= call runtime repo codex memory contract_id operation values)
                  opened in
              elim split [
                | inl broke ↦ check_inputs-panicked operation.destructible_in _ [] broke
                | inr (values, inputs, h₁) ↦
                    let (constants, reads, h₂) =
                      >>=-eq-panicked_later _ _ h₁
                        (read_immutable-panicked operation.immutable_in []) in
                    let (site, found, h₃) =
                      >>=-eq-panicked_later _ _ h₂
                        (ok_or-panicked (lookup codex.verifiers operation.call_id) _) in
                    let (id, broke) = main_law _ site _ _ (main_result-panicked operation _ h₃) in
                    resolver-panicked id broke
              ]
        ]
