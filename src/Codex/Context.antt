-- ===== src/Codex/Context.antt =====
-- What the verifier of a codex runs on (src/codex.rs, src/isa/exec.rs): the cells that the operation
-- names, as the memory has them, in the order of the operation.
use mathlib.Core.Option
use ultrasonic.Prelude.{
  ◌≤◌, ◌<◌, ◌^◌, ◌≡◌, refl, sym, ap, ap₂, ◌∙◌, Option, some, List, [], ◌∷◌, map, length, arith,
  done,
}
use ultrasonic.Externals.{Externals, Status}
use ultrasonic.State.{StateCell, StateData}
use ultrasonic.State.Value.{StateValue}
use ultrasonic.Ids.{ContractId}
use ultrasonic.Operation.{CellAddr, Input, Operation, VerifiedOperation}
use ultrasonic.Isa.Core.{Io, Mem, in_ro, in_ao, out_ro, out_ao}
use ultrasonic.Isa.Context.{VmContext}
use ultrasonic.Isa.Microcode.Cells
use ultrasonic.Isa.Microcode.Cells.{cells}
use ultrasonic.Codex.{Codex, Memory, LibRepo, Runtime}
use ultrasonic.Codex.Outcome.{ok}
use ultrasonic.Codex.Verify.{verify, resolver, lookup, context_of}
use ultrasonic.Codex.Spec.{ResetLaws, Accepts, Reads}
use ultrasonic.Codex.Correct.{IsConfined, verify-ok_iff}

-- The outputs of an operation are within the bounds of their types.
abbrev pub OutputsFit : {E : Externals} → Operation E → Type 0
OutputsFit operation =
    (length operation.destructible_out ≤ 65535) × (length operation.immutable_out ≤ 65535)

length-map : {A B : Type 0} (f : A → B) (xs : List A) → length (map f xs) ≡ length xs
length-map f [] = refl
length-map f (x ∷ xs) = omega (arith, length-map f xs)

module _ {E : Externals} (runtime : Runtime E) (repo : LibRepo E) (codex : Codex E)
    (memory : Memory E) where
  -- The value of a destructible cell of the memory.
  abbrev pub destructible_value : Input E.Fe → Option (StateValue E.Fe)
  destructible_value named = Option.map (λ cell. cell.«data») (memory.destructible named.addr)

  pub Accepts-values :
      (ins : List (Input E.Fe)) (values : List (StateValue E.Fe))
      → Accepts runtime repo codex memory ins values
      → map some values ≡ map destructible_value ins
  Accepts-values [] [] h = refl
  Accepts-values (named ∷ rest) (value ∷ values) ((cell, found, same, opens), h) =
      ap₂ ◌∷◌ (sym (ap (Option.map (λ cell. cell.«data»)) found ∙ ap some same))
        (Accepts-values rest values h)
  Accepts-values [] (value ∷ values) h = absurd h
  Accepts-values (named ∷ rest) [] h = absurd h

  pub Reads-values :
      (addrs : List CellAddr) (values : List (StateValue E.Fe))
      → Reads runtime repo codex memory addrs values
      → map some values ≡ map memory.immutable addrs
  Reads-values [] [] h = refl
  Reads-values (addr ∷ rest) (value ∷ values) (found, h) =
      ap₂ ◌∷◌ (sym found) (Reads-values rest values h)
  Reads-values [] (value ∷ values) h = absurd h
  Reads-values (addr ∷ rest) [] h = absurd h

  bound :
      {A : Type 0} (f : A → Option (StateValue E.Fe)) (values : List (StateValue E.Fe))
      (items : List A)
      → map some values ≡ map f items
      → length items ≤ 65535
      → length values < 2 ^ 16
  bound f values items same fits =
      omega (arith, length-map some values, ap length same, length-map f items, fits)

  module _ (operation : Operation E) (values constants : List (StateValue E.Fe))
      (small : IsConfined operation) (outputs : OutputsFit operation)
      (same : map some values ≡ map destructible_value operation.destructible_in)
      (same' : map some constants ≡ map memory.immutable operation.immutable_in) where
    abbrev pub context : VmContext E
    context = record {
      destructible_input = values;
      immutable_input = constants;
      destructible_output = operation.destructible_out;
      immutable_output = operation.immutable_out;
    }

    pub context-fits :
        (io : Io) (mem : Mem) → length (cells context (record { io = io; mem = mem })) < 2 ^ 16
    context-fits Io.input Mem.read_once =
        bound destructible_value values operation.destructible_in same small.0
    context-fits Io.input Mem.append_only =
        bound memory.immutable constants operation.immutable_in same' small.1
    context-fits Io.output Mem.read_once =
        omega
          (arith, outputs.0, length-map (λ (c : StateCell E). c.«data») operation.destructible_out)
    context-fits Io.output Mem.append_only =
        omega
          (arith, outputs.1, length-map (λ (d : StateData E.Fe). d.value) operation.immutable_out)

  module _ (laws : ResetLaws runtime.lock_vm) (contract_id : ContractId)
      (operation : Operation E) where
    -- An operation that is verified was run by the verifier of its call, to success, on a context whose
    -- inputs are the cells that it names, as the memory has them and in the order of the operation, and
    -- whose outputs are its own. That context is confined, as the theorems on iterators take it to be.
    -- The vectors of the operation are within the bounds of their types, and a reset of the machine for
    -- locks makes it as it was made.
    pub verify-context :
        (v : VerifiedOperation E)
        → IsConfined operation
        → OutputsFit operation
        → verify runtime repo codex contract_id operation memory ≡ ok v
        → (context : VmContext E) × (site : E.LibSite) × (vm : runtime.main_vm.Vm) × (lookup
              codex.verifiers operation.call_id
            ≡ some site)
          × (runtime.main_vm.exec
                (runtime.main_vm.with_config codex.verification_config codex.field_order)
                site
                context
                (resolver runtime repo)
              ≡ done (Status.ok, vm))
          × Cells.IsConfined context
          × (map some (cells context in_ro) ≡ map destructible_value operation.destructible_in)
          × (map some (cells context in_ao) ≡ map memory.immutable operation.immutable_in)
          × (cells context out_ro ≡ map (λ (c : StateCell E). c.«data») operation.destructible_out)
          × (cells context out_ao ≡ map (λ (d : StateData E.Fe). d.value) operation.immutable_out)
    unfolding context_of
    verify-context v small outputs h =
        let ((values, constants, site, vm, (own, accepts, reads), found, runs), cached) =
          (verify-ok_iff runtime repo codex laws memory contract_id operation v small).0 h in
        let same : _ = Accepts-values operation.destructible_in values accepts in
        let same' : _ = Reads-values operation.immutable_in constants reads in
        (
          context_of runtime repo operation values constants,
          site,
          vm,
          found,
          runs,
          λ cat. context-fits operation values constants small outputs same same' cat.io cat.mem,
          same,
          same',
          refl,
          refl,
        )
