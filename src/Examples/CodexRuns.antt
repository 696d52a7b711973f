-- ===== src/Examples/CodexRuns.antt =====
-- Runs of `Codex::verify` (src/codex.rs).
use ultrasonic.Prelude.{
  ℕ, ◌≡◌, refl, bytes_eq, [], ◌∷◌, none, some, if◌then◌else◌, ◌==◌, arith, get_elem?,
}
use ultrasonic.State.Value.{StateValue}
use ultrasonic.Operation.{new_unchecked}
use ultrasonic.Codex.{Memory}
use ultrasonic.Codex.Outcome.{CallError, ok, err}
use ultrasonic.Codex.Verify.{
  verify, check_inputs, armed, resolver, checked, put_witness, lookup, run_lock, lock_result,
  check_input, ok_or, push, context_of,
}
use ultrasonic.Codex.Spec.{fresh, blocked, Stops, locked}
use ultrasonic.Codex.Correct.{verify-ok_iff, verify-err_iff}
use ultrasonic.Codex.Panics.{Cheats, verify-panicked}
use ultrasonic.Prelude.{◌⊎◌}
use ultrasonic.Operation.Commit.Binding.{Clashing}
use ultrasonic.Codex.Growth.{Extends, verify-grows}
use ultrasonic.Codex.Asserts.{asserted_verify, asserted_verify_lem}
use ultrasonic.Codex.Equality.{verified_eq_iff}
use ultrasonic.Operation.{VerifiedOperation}
use ultrasonic.Operation.Commit.{verified_eq}
use ultrasonic.Examples.Items.{encoders-Unambiguous}
use ultrasonic.Codex.Verify.{read_immutable, main_result, context_of, lookup}
use ultrasonic.Prelude.{◌↔◌, true}
use ultrasonic.Codex.Frame.{verify-frame, check_inputs-twice}
use ultrasonic.State.Auth.{to_fe256}
use ultrasonic.State.Value
use ultrasonic.Operation.Commit.{opid}
use ultrasonic.Examples.Machine.{outside}
use ultrasonic.Examples.Encodings.{plain}
use ultrasonic.Examples.Items.{encoders}
use ultrasonic.Examples.Contract.{
  runtime, honest, cheating, codex, contract, memory, operation, input, cell, lock_vm-ResetLaws,
  lock_vm-PanicsInResolver, main_vm-PanicsInResolver,
}

verify-ok_iff_example :
    verify runtime honest codex contract (operation 3 40) memory
    ≡ ok (new_unchecked (opid plain encoders (operation 3 40)) (operation 3 40))
unfolding armed resolver checked put_witness lookup to_fe256 Value.get context_of
verify-ok_iff_example =
    (verify-ok_iff runtime honest codex lock_vm-ResetLaws memory contract (operation 3 40)
        (new_unchecked (opid plain encoders (operation 3 40)) (operation 3 40))
        (omega arith, omega arith)).1
      (
        (
          StateValue.single 5 ∷ [],
          StateValue.single 8 ∷ [],
          30,
          _,
          (refl, ((cell, refl, refl, (_, refl)), tt), (refl, tt)),
          refl,
          refl,
        ),
        refl,
      )

verify-err_iff_example :
    verify runtime honest codex contract (operation 3 41) memory ≡ err (CallError.lock none)
unfolding armed resolver checked put_witness lookup to_fe256 Value.get
verify-err_iff_example =
    (verify-err_iff runtime honest codex lock_vm-ResetLaws memory contract (operation 3 41)
        (CallError.lock none) (omega arith, omega arith)).1
      (blocked refl (Stops.here (locked cell 40 _ refl refl refl refl)))

verify-panicked_example : Cheats runtime cheating
unfolding verify check_inputs check_input run_lock lock_result armed resolver checked put_witness
    to_fe256 Value.get ok_or bytes_eq
verify-panicked_example =
    verify-panicked runtime cheating lock_vm-PanicsInResolver main_vm-PanicsInResolver memory codex
      contract (operation 3 40) refl

-- A memory with one more immutable cell.
abbrev larger : Memory outside
larger = record {
  destructible = memory.destructible;
  immutable = λ addr. if addr.pos == 2 then some (StateValue.single 1) else memory.immutable addr;
}

verify-frame_example :
    verify runtime honest codex contract (operation 3 40) memory
    ≡ verify runtime honest codex contract (operation 3 40) larger
verify-frame_example =
    verify-frame runtime honest codex memory larger contract (operation 3 40) (refl, tt) (refl, tt)

check_inputs-twice_example :
    (value : StateValue ℕ) × (check_inputs runtime honest memory
        (input 40 ∷ input 40 ∷ [])
        (fresh runtime honest codex)
        []
      ≡ ok (value ∷ StateValue.single 5 ∷ []))
    × (get_elem? (StateValue.single 5 ∷ []) 0 ≡ some value)
unfolding check_inputs check_input run_lock lock_result armed resolver checked put_witness to_fe256
    Value.get ok_or push
check_inputs-twice_example =
    check_inputs-twice runtime honest codex lock_vm-ResetLaws memory (input 40) []
      (StateValue.single 5 ∷ []) (omega arith) refl

-- What the verification of the operation with the right key gives.
abbrev accepted : VerifiedOperation outside
accepted = record { cached = opid plain encoders (operation 3 40); operation = operation 3 40 }

verified_eq_iff_example :
    ((verified_eq accepted accepted ≡ true) ↔ (operation 3 40 ≡ operation 3 40))
    ⊎ Clashing plain encoders (operation 3 40) (operation 3 40)
unfolding verify check_inputs check_input run_lock lock_result armed resolver checked put_witness
    to_fe256 Value.get ok_or bytes_eq lookup read_immutable main_result new_unchecked context_of
verified_eq_iff_example =
    verified_eq_iff runtime honest codex lock_vm-ResetLaws memory contract plain
      encoders-Unambiguous (λ o. refl) (operation 3 40) (operation 3 40) accepted accepted
      (omega arith, omega arith) (omega arith, omega arith) refl refl

-- The further cell of the larger memory is not where the other has one.
memory-Extends : Extends memory larger
memory-Extends = record {
  destructible = λ addr found h. h;
  immutable = λ addr value h. ground (arith, h);
}

verify-grows_example : verify runtime honest codex contract (operation 3 40) larger ≡ ok accepted
unfolding verify check_inputs check_input run_lock lock_result armed resolver checked put_witness
    to_fe256 Value.get ok_or bytes_eq lookup read_immutable main_result new_unchecked context_of
verify-grows_example =
    verify-grows runtime honest codex memory larger memory-Extends lock_vm-ResetLaws contract
      (operation 3 40) accepted (omega arith, omega arith) refl

asserted_verify_lem_example :
    asserted_verify runtime honest codex contract (operation 3 40) memory
    ≡ verify runtime honest codex contract (operation 3 40) memory
asserted_verify_lem_example =
    asserted_verify_lem runtime honest codex contract (operation 3 40) memory
      (omega arith, omega arith)
