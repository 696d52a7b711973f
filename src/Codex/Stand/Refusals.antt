-- ===== src/Codex/Stand/Refusals.antt =====
-- The tests on the stand of src/codex.rs whose outcome no script decides.
use mathlib.Core.Option.{some-injective}
use ultrasonic.Prelude.{
  ◌≡◌, ◌≢◌, refl, ap, Option, none, some, [], true, false, bytes_eq, bytes_eq_refl, Bool-cases, inl,
  inr, Partial,
}
use ultrasonic.Externals.{Externals}
use ultrasonic.Isa.Context.{VmContext}
use ultrasonic.Codex.{Runtime}
use ultrasonic.Codex.Outcome.{
  err, panicked, wrong_contract, not_found, no_read_once_input, no_immutable_input,
}
use ultrasonic.Codex.Verify.{
  verify, check_inputs, check_input, read_immutable, ok_or, lookup, main_result, resolver, checked,
}
use ultrasonic.Codex.Panics.{PanicsInResolver, Cheats, verify-panicked}
use ultrasonic.Codex.Stand.{
  lib_success, lib_failure_one, Bench, Subject, get, memory_of, repo_of, invalid_repo, contract_id,
  prepared, test_stand, test_stand_script, test_stand_repo,
}
use ultrasonic.Codex.Stand.Cases.{
  verify_contract_id, verify_no_immutable, verify_no_destructible, verify_no_verifier,
  verify_wrong_lib_id,
}

module _ {E : Externals} (runtime : Runtime E) (bench : Bench E) where
  open runtime use {main_vm, lib_id, lib_id_eq}
  open bench use {dumb_addr, dumb_operation, lib_site}

  -- An operation of another contract is refused, whatever else it holds.
  pub verify_contract_id_lem :
      bytes_eq bench.digest_wrong bench.digest_test ≡ false
      → verify_contract_id runtime bench
        ≡ err (wrong_contract (contract_id runtime bench) (record { bytes = bench.digest_wrong }))
  unfolding verify_contract_id test_stand test_stand_script test_stand_repo prepared verify
  verify_contract_id_lem differ = rw differ refl

  own : bytes_eq bench.digest_test bench.digest_test ≡ true
  own = bytes_eq_refl bench.digest_test

  -- An immutable input that the memory does not have is refused.
  pub verify_no_immutable_lem :
      dumb_operation.destructible_in ≡ []
      → verify_no_immutable runtime bench ≡ err (no_immutable_input dumb_addr)
  unfolding verify_no_immutable test_stand test_stand_script test_stand_repo prepared verify
      check_inputs read_immutable ok_or memory_of get
  verify_no_immutable_lem bare = rw own (rw bare refl)

  -- So is a destructible input.
  pub verify_no_destructible_lem :
      verify_no_destructible runtime bench ≡ err (no_read_once_input dumb_addr)
  unfolding verify_no_destructible test_stand test_stand_script test_stand_repo prepared verify
      check_inputs check_input ok_or memory_of get
  verify_no_destructible_lem = rw own refl

  -- A call without a verifier is refused, once all inputs were read.
  pub verify_no_verifier_lem :
      dumb_operation.destructible_in ≡ []
      → dumb_operation.immutable_in ≡ []
      → verify_no_verifier runtime bench ≡ err (not_found 0)
  unfolding verify_no_verifier test_stand_script test_stand_repo prepared verify check_inputs
      read_immutable lookup ok_or
  verify_no_verifier_lem bare bare' = rw own (rw bare (rw bare' refl))

  -- The repository of one library answers with no other.
  pub repo_of-IsHonest :
      ((a b : E.LibId) → lib_id_eq a b ≡ true → lib_id_eq b a ≡ true)
      → (lib : E.Lib) → ¬ Cheats runtime (repo_of runtime lib)
  unfolding repo_of
  repo_of-IsHonest turn lib (id, answer, found, other) =
      elim (Bool-cases (lib_id_eq id (lib_id lib))) [
        | inl same ↦
            let given : some lib ≡ some answer = rw same at found in
            let one : lib ≡ answer = some-injective lib answer given in
            cc (turn id (lib_id lib) same, other, ap (λ l. lib_id_eq (lib_id l) id) one)
        | inr differs ↦ let given : none ≡ some answer = rw differs at found in cc given
      ]

  -- On that repository no test panics in the verification, whatever it changes.
  pub test_stand_script-returns :
      ((a b : E.LibId) → lib_id_eq a b ≡ true → lib_id_eq b a ≡ true)
      → PanicsInResolver runtime.lock_vm
      → PanicsInResolver main_vm
      → (lib : E.Lib) (modify : Subject E → Subject E)
      → test_stand_script runtime bench lib modify ≢ panicked
  unfolding test_stand_script test_stand_repo
  test_stand_script-returns turn lock_law main_law lib modify h =
      repo_of-IsHonest turn lib
        (verify-panicked runtime (repo_of runtime lib) lock_law main_law _ _ _ _ h)

  asked :
      lib_id_eq (lib_id (lib_failure_one runtime bench)) (lib_id (lib_success runtime bench))
        ≡ false
      → resolver runtime
          (invalid_repo runtime (lib_failure_one runtime bench))
          (lib_id (lib_success runtime bench))
        ≡ Partial.panicked
  unfolding resolver checked invalid_repo
  asked differ = rw differ refl

  -- With the invalid repository it panics, where the machine asks for the library of its script.
  pub verify_wrong_lib_id_lem :
      dumb_operation.destructible_in ≡ []
      → dumb_operation.immutable_in ≡ []
      → lib_id_eq (lib_id (lib_failure_one runtime bench)) (lib_id (lib_success runtime bench))
        ≡ false
      → ((vm : main_vm.Vm) (context : VmContext E) (resolve : E.LibId → Partial (Option E.Lib))
          → resolve (lib_id (lib_success runtime bench)) ≡ Partial.panicked
          → main_vm.exec vm (lib_site (lib_id (lib_success runtime bench)) 0) context resolve
            ≡ Partial.panicked)
      → verify_wrong_lib_id runtime bench ≡ panicked
  unfolding verify_wrong_lib_id test_stand_repo prepared verify check_inputs read_immutable lookup
      ok_or main_result
  verify_wrong_lib_id_lem bare bare' differ asks =
      rw own (rw bare (rw bare' (rw (asks _ _ _ (asked differ)) refl)))
