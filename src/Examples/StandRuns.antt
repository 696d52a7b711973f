-- ===== src/Examples/StandRuns.antt =====
-- The tests of src/codex.rs, run on the stand with a small machine for their scripts.
use ultrasonic.Prelude.{ℕ, ◌≡◌, refl, [], ◌∷◌, none, Bool, true, false, some, ◌==◌}
use mathlib.Core.Option.{none-ne-some}
use ultrasonic.Prelude.{Bool-cases, inl, inr, ==_iff, sym}
use ultrasonic.State.Value.{StateValue, into_iter}
use ultrasonic.Operation.{new_unchecked}
use ultrasonic.Codex.Outcome.{
  Outcome, ok, err, wrong_contract, not_found, no_read_once_input, no_immutable_input, lock, script,
  script_unspecified,
}
use ultrasonic.Codex.Stand.{contract_id, test_stand}
use ultrasonic.Codex.Stand.Cases.{
  verify_dumb, verify_contract_id, verify_no_immutable, verify_no_destructible, verify_immutable,
  verify_destructible, verify_protected_dumb, verify_protected, verify_protected_failure1,
  verify_protected_failure2, verify_protected_failure3, verify_script_failure_unspecified,
  verify_script_failure_code, verify_no_verifier, verify_lib_absent, verify_lib_wrong_pos,
  verify_wrong_lib_id, protected, with_cell, with_verifier, insert_verifier,
}
use ultrasonic.Codex.Stand.{
  lock_body, lib_lock, addr_eq, get, insert, memory_of, repo_of, invalid_repo, prepared,
  test_stand_repo, test_stand_script,
}
use ultrasonic.Codex.Verify.{
  verify, check_inputs, armed, resolver, checked, put_witness, lookup, run_lock, lock_result,
  check_input, ok_or, push, context_of, read_immutable, main_result, failure,
}
use ultrasonic.State.Value
use ultrasonic.State.Auth.{to_fe256}
use ultrasonic.Prelude.{bytes_eq, arith}
use ultrasonic.Externals.{fail}
use ultrasonic.Examples.StandMachine.{runtime, bench, Code, test, chk, put, run, make}
use ultrasonic.Examples.StandLaws.{
  machine-ResetLaws, machine_code, machine-RegisterLaws, machine-CodeLaws, lib-same, names-free,
}
use ultrasonic.Codex.Stand.Verdict.{refused}
use ultrasonic.Codex.Stand.Script.{too_much}
use ultrasonic.Codex.Stand.Lock.{protected_iff}

-- A test that does not panic.
abbrev passes : {A : Type 0} → Outcome ℕ A → Bool
passes (ok v) = true
passes (err code) = false
passes Outcome.panicked = false

-- The tests that are to pass do.
all_pass :
    (passes (verify_immutable runtime bench) ≡ true)
    × (passes (verify_destructible runtime bench) ≡ true)
    × (passes (verify_protected_dumb runtime bench) ≡ true)
    × (passes (verify_protected runtime bench) ≡ true)
    × (passes (verify_dumb runtime bench) ≡ true)
unfolding verify_immutable verify_destructible verify_protected_dumb verify_protected verify_dumb
    protected test_stand test_stand_script test_stand_repo prepared memory_of get insert addr_eq
    repo_of invalid_repo insert_verifier with_cell with_verifier verify bytes_eq resolver checked
    put_witness armed lock_result run_lock ok_or push check_input check_inputs read_immutable lookup
    failure main_result context_of to_fe256 Value.get new_unchecked lock_body
all_pass = (refl, refl, refl, refl, refl)

-- The tests that are to panic end with the error that they name, and the last with a panic.
all_fail :
    (verify_contract_id runtime bench
      ≡ err (wrong_contract (contract_id runtime bench) (record { bytes = 8 ∷ 2 ∷ [] })))
    × (verify_no_immutable runtime bench ≡ err (no_immutable_input bench.dumb_addr))
    × (verify_no_destructible runtime bench ≡ err (no_read_once_input bench.dumb_addr))
    × (verify_protected_failure1 runtime bench ≡ err (lock (some 1)))
    × (verify_protected_failure2 runtime bench ≡ err (lock (some 2)))
    × (verify_protected_failure3 runtime bench ≡ err (lock (some 3)))
    × (verify_script_failure_unspecified runtime bench ≡ err script_unspecified)
    × (verify_script_failure_code runtime bench ≡ err (script 1))
    × (verify_no_verifier runtime bench ≡ err (not_found 0))
    × (verify_lib_absent runtime bench ≡ err script_unspecified)
    × (verify_lib_wrong_pos runtime bench ≡ err script_unspecified)
    × (verify_wrong_lib_id runtime bench ≡ Outcome.panicked)
unfolding verify_contract_id verify_no_immutable verify_no_destructible verify_protected_failure1
    verify_protected_failure2 verify_protected_failure3 verify_script_failure_unspecified
    verify_script_failure_code verify_no_verifier verify_lib_absent verify_lib_wrong_pos
    verify_wrong_lib_id protected test_stand test_stand_script test_stand_repo prepared memory_of
    get insert addr_eq repo_of invalid_repo insert_verifier with_cell with_verifier verify bytes_eq
    resolver checked put_witness armed lock_result run_lock ok_or push check_input check_inputs
    read_immutable lookup failure main_result context_of to_fe256 Value.get new_unchecked lock_body
all_fail = (refl, refl, refl, refl, refl, refl, refl, refl, refl, refl, refl, refl)

nat_equal : (a b : ℕ) → Dec (a ≡ b)
nat_equal a b = elim (Bool-cases (a == b)) [
  | inl met ↦ yes ((==_iff a b).0 met)
  | inr different ↦ no (λ e. cc ((==_iff a b).1 e, different))
]

-- A witness that gives more than the secret is refused with the number 3.
protected_iff_example :
    protected runtime bench (record { fe = 48 }) 1 (StateValue.double 48 7) ≡ err (lock (some 3))
unfolding to_fe256 into_iter lock_body
protected_iff_example =
    (protected_iff runtime bench (record { fe = 48 }) (StateValue.double 48 7) machine-ResetLaws
        machine_code machine-CodeLaws machine-RegisterLaws (lib-same (lib_lock runtime bench))
        names-free refl (omega arith) nat_equal _).1
      (refused 3 (too_much refl refl (λ e. none-ne-some 7 (sym e))))

-- A failed check ends the run of a machine that is to halt on one, and no other.
abbrev probing : Code
probing = test 5 ∷ chk ∷ put 9 1 ∷ []

halting : (run 0 probing (make (true, none) 0)).1.file 9 ≡ none
halting = refl

going_on :
    ((run 0 probing (make (false, none) 0)).0 ≡ fail)
    × ((run 0 probing (make (false, none) 0)).1.file 9 ≡ some 1)
going_on = (refl, refl)

-- A machine that has spent its limit fails.
over_limit : (run 0 (put 9 1 ∷ put 9 2 ∷ []) (make (true, some 2) 0)).0 ≡ fail
over_limit = refl
