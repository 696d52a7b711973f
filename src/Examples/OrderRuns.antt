-- ===== src/Examples/OrderRuns.antt =====
-- That and how `Codex::verify` returns (src/codex.rs), and the order of operations (src/operation.rs), at
-- concrete operations.
use Prim.Native.Nat.Ordering.{lt, eq}
use ultrasonic.Prelude.{reverse, ◌≡◌, ◌↔◌, ◌⊎◌, true, ◌==◌, arith}
use ultrasonic.Operation.{new_unchecked}
use ultrasonic.Operation.Commit.{operation_eq, opid}
use ultrasonic.Operation.Order.{operation_cmp, operation_hash, operation_cmp_exact}
use ultrasonic.Operation.Commit.Binding.{Clashing}
use ultrasonic.Codex.Outcome.{CallError, ok, err}
use ultrasonic.Codex.Verify.{verify}
use ultrasonic.Codex.Spec.{IsValid, Fails}
use ultrasonic.Codex.Panics.{Cheats}
use ultrasonic.Codex.Decides.{verify-Decides}
use ultrasonic.Prelude.{refl, some, ℕ, map, bytes_eq, done, [], ◌∷◌}
use ultrasonic.Externals.{Status}
use ultrasonic.State.Value
use ultrasonic.State.Value.{StateValue}
use ultrasonic.State.Auth.{to_fe256}
use ultrasonic.Operation.{VerifiedOperation}
use ultrasonic.Isa.Core.{in_ro, in_ao, out_ro, out_ao}
use ultrasonic.Isa.Context.{VmContext}
use ultrasonic.Isa.Microcode.Cells
use ultrasonic.Isa.Microcode.Cells.{cells}
use ultrasonic.Codex.Verify.{
  check_inputs, armed, resolver, checked, put_witness, lookup, run_lock, lock_result, check_input,
  ok_or, context_of, read_immutable, main_result,
}
use ultrasonic.Codex.Context.{verify-context}
use ultrasonic.Prelude.{inl, inr, ap, ==_iff}
use ultrasonic.Codex.Outcome.{Outcome}
use ultrasonic.Codex.Repository.{IsMonotone, verify-repository}
use ultrasonic.Examples.Contract.{ScriptVm, finish, lock_vm, main_vm, cheating}
use ultrasonic.Examples.Machine.{outside}
use ultrasonic.Examples.Encodings.{plain}
use ultrasonic.Examples.Items.{encoders, encoders-Unambiguous}
use ultrasonic.Examples.Contract.{
  runtime, honest, codex, contract, memory, operation, lock_vm-ResetLaws, lock_vm-PanicsInResolver,
  main_vm-PanicsInResolver,
}

honest-Cheats : ¬ (Cheats runtime honest)
honest-Cheats (id, lib, found, other) =
    let same : id ≡ lib = cc in let equal : (lib == id) ≡ true = ground arith in cc

verify-Decides_example :
    ((verify runtime honest codex contract (operation 3 41) memory
        ≡ ok (new_unchecked (opid plain encoders (operation 3 41)) (operation 3 41)))
      × IsValid runtime honest codex memory contract (operation 3 41))
    ⊎ ((e : CallError outside.Fe) × (verify runtime honest codex contract (operation 3 41) memory
          ≡ err e)
        × Fails runtime honest codex memory contract (operation 3 41) e)
verify-Decides_example =
    verify-Decides runtime honest codex lock_vm-ResetLaws lock_vm-PanicsInResolver
      main_vm-PanicsInResolver memory contract (operation 3 41) (omega arith, omega arith)
      honest-Cheats

operation_cmp_exact_example :
    (operation_cmp plain encoders (operation 3 41) (operation 3 40)
      ≡ reverse (operation_cmp plain encoders (operation 3 40) (operation 3 41)))
    × (operation_cmp plain encoders (operation 3 40) (operation 3 41) ≡ lt
        → operation_cmp plain encoders (operation 3 41) (operation 4 40) ≡ lt
        → operation_cmp plain encoders (operation 3 40) (operation 4 40) ≡ lt)
    × ((operation_cmp plain encoders (operation 3 40) (operation 3 41) ≡ eq) ↔ (
        operation_hash plain encoders (operation 3 40)
        ≡ operation_hash plain encoders (operation 3 41)))
    × ((operation_cmp plain encoders (operation 3 40) (operation 3 41) ≡ eq)
        ↔ (operation_eq plain encoders (operation 3 40) (operation 3 41) ≡ true))
    × (((operation_cmp plain encoders (operation 3 40) (operation 3 41) ≡ eq)
          ↔ (operation 3 40 ≡ operation 3 41))
        ⊎ Clashing plain encoders (operation 3 40) (operation 3 41))
operation_cmp_exact_example =
    operation_cmp_exact plain encoders-Unambiguous (operation 3 40) (operation 3 41)
      (operation 4 40)

-- What the verification of the operation with the right key gives.
abbrev accepted : VerifiedOperation outside
accepted = record { cached = opid plain encoders (operation 3 40); operation = operation 3 40 }

verify-context_example :
    (context : VmContext outside) × (site : ℕ) × (vm : ScriptVm) × (lookup codex.verifiers 3
      ≡ some site)
    × (runtime.main_vm.exec
          (runtime.main_vm.with_config 2 101)
          site
          context
          (resolver runtime honest)
        ≡ done (Status.ok, vm))
    × Cells.IsConfined context
    × (map some (cells context in_ro) ≡ some (StateValue.single 5) ∷ [])
    × (map some (cells context in_ao) ≡ some (StateValue.single 8) ∷ [])
    × (cells context out_ro ≡ StateValue.single 5 ∷ [])
    × (cells context out_ao ≡ [])
unfolding verify check_inputs check_input run_lock lock_result armed resolver checked put_witness
    to_fe256 Value.get ok_or bytes_eq lookup read_immutable main_result new_unchecked context_of
verify-context_example =
    verify-context runtime honest codex memory lock_vm-ResetLaws contract (operation 3 40) accepted
      (omega arith, omega arith) (omega arith, omega arith) refl

lock_vm-IsMonotone : IsMonotone lock_vm
lock_vm-IsMonotone vm site context r r' h = elim (h site) [
  | inl broke ↦ inl (ap (finish vm _) broke)
  | inr same ↦ inr (ap (finish vm _) same)
]

main_vm-IsMonotone : IsMonotone main_vm
main_vm-IsMonotone vm site context r r' h = elim (h site) [
  | inl broke ↦ inl (ap (finish vm _) broke)
  | inr same ↦ inr (ap (finish vm _) same)
]

verify-repository_example :
    (verify runtime cheating codex contract (operation 3 40) memory ≡ Outcome.panicked)
    ⊎ (verify runtime cheating codex contract (operation 3 40) memory
        ≡ verify runtime honest codex contract (operation 3 40) memory)
verify-repository_example =
    verify-repository runtime (λ a b same. (==_iff a b).0 same) cheating honest
      ((λ id. refl), (λ id a b h k same. same)) honest-Cheats lock_vm-IsMonotone main_vm-IsMonotone
      memory codex contract (operation 3 40)
