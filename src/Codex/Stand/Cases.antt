-- ===== src/Codex/Stand/Cases.antt =====
-- The tests on the stand of src/codex.rs: what each changes, and how the scripts are chosen.
use ultrasonic.Prelude.{ℕ, some, List, [], ◌∷◌, ltb, ◌==◌, if◌then◌else◌}
use ultrasonic.Externals.{Externals}
use ultrasonic.State.{StateCell}
use ultrasonic.State.Value.{StateValue}
use ultrasonic.State.Auth.{AuthToken}
use ultrasonic.Operation.{CallId, Input, VerifiedOperation}
use ultrasonic.Codex.{Runtime}
use ultrasonic.Codex.Outcome.{Outcome}
use ultrasonic.Codex.Stand.{
  secret, lib_success, lib_failure_none, lib_failure_one, lib_lock, Bench, Subject, insert,
  test_stand, test_stand_script, test_stand_repo, invalid_repo,
}

-- `BTreeMap::insert`, in the order of the keys.
unfoldable pub insert_verifier {ℓ} :
    {A : Type ℓ} → List (CallId × A) → CallId → A → List (CallId × A)
insert_verifier [] id site = (id, site) ∷ []
insert_verifier ((key, value) ∷ rest) id site =
    let inserted = insert_verifier rest id site in
    if key == id
    then (id, site) ∷ rest
    else if ltb id key
    then (id, site) ∷ (key, value) ∷ rest
    else (key, value) ∷ inserted

module _ {E : Externals} (runtime : Runtime E) (bench : Bench E) where
  open runtime use {lib_id}
  open bench use {dumb_addr, lib_site, fe256}

  unfoldable pub verify_dumb : Outcome E.Fe (VerifiedOperation E)
  verify_dumb = test_stand runtime bench (λ subject. subject)

  unfoldable pub verify_contract_id : Outcome E.Fe (VerifiedOperation E)
  verify_contract_id = test_stand runtime bench (λ (subject : Subject E). record subject {
    operation = record subject.operation { contract_id = record { bytes = bench.digest_wrong } };
  })

  unfoldable pub verify_no_immutable : Outcome E.Fe (VerifiedOperation E)
  verify_no_immutable = test_stand runtime bench (λ (subject : Subject E). record subject {
    operation = record subject.operation { immutable_in = dumb_addr ∷ [] };
  })

  -- The input that the tests name, with the default witness or another.
  abbrev pub named : StateValue E.Fe → Input E.Fe
  named witness = record { addr = dumb_addr; witness = witness }

  unfoldable pub verify_no_destructible : Outcome E.Fe (VerifiedOperation E)
  verify_no_destructible = test_stand runtime bench (λ (subject : Subject E). record subject {
    operation = record subject.operation { destructible_in = named StateValue.none ∷ [] };
  })

  unfoldable pub verify_immutable : Outcome E.Fe (VerifiedOperation E)
  unfolding insert
  verify_immutable = test_stand runtime bench (λ (subject : Subject E). record subject {
    operation = record subject.operation { immutable_in = dumb_addr ∷ [] };
    memory = record subject.memory {
      immutable = insert subject.memory.immutable dumb_addr bench.dumb_value;
    };
  })

  -- A cell is put into the memory and named as an input.
  unfoldable pub with_cell : StateCell E → StateValue E.Fe → Subject E → Subject E
  unfolding insert
  with_cell cell witness subject = record subject {
    operation = record subject.operation { destructible_in = named witness ∷ [] };
    memory = record subject.memory {
      destructible = insert subject.memory.destructible dumb_addr cell;
    };
  }

  unfoldable pub verify_destructible : Outcome E.Fe (VerifiedOperation E)
  unfolding with_cell
  verify_destructible = test_stand runtime bench (with_cell bench.dumb_cell StateValue.none)

  -- The tests of a protected cell differ in the token of the cell, in where its lock starts, and in the
  -- witness.
  unfoldable pub protected :
      AuthToken E.Fe → ℕ → StateValue E.Fe → Outcome E.Fe (VerifiedOperation E)
  unfolding with_cell
  protected auth pos witness = test_stand_script runtime bench (lib_lock runtime bench) (
      with_cell
        (record {
          «data» = StateValue.none;
          auth = auth;
          lock = some (lib_site (lib_id (lib_lock runtime bench)) pos);
        })
        witness)

  abbrev token : AuthToken E.Fe
  token = record { fe = fe256 secret }

  unfoldable pub verify_protected_dumb : Outcome E.Fe (VerifiedOperation E)
  verify_protected_dumb = protected bench.dumb_token 0 StateValue.none

  unfoldable pub verify_protected : Outcome E.Fe (VerifiedOperation E)
  verify_protected = protected token 1 (StateValue.single (fe256 secret))

  unfoldable pub verify_protected_failure1 : Outcome E.Fe (VerifiedOperation E)
  verify_protected_failure1 = protected bench.dumb_token 1 (StateValue.single (fe256 secret))

  unfoldable pub verify_protected_failure2 : Outcome E.Fe (VerifiedOperation E)
  verify_protected_failure2 = protected token 1 StateValue.none

  unfoldable pub verify_protected_failure3 : Outcome E.Fe (VerifiedOperation E)
  verify_protected_failure3 = protected token 1 (StateValue.double (fe256 secret) (fe256 secret))

  unfoldable pub verify_script_failure_unspecified : Outcome E.Fe (VerifiedOperation E)
  verify_script_failure_unspecified =
      test_stand_script runtime bench (lib_failure_none runtime bench) (λ subject. subject)

  unfoldable pub verify_script_failure_code : Outcome E.Fe (VerifiedOperation E)
  verify_script_failure_code =
      test_stand_script runtime bench (lib_failure_one runtime bench) (λ subject. subject)

  unfoldable pub verify_no_verifier : Outcome E.Fe (VerifiedOperation E)
  verify_no_verifier =
      test_stand_script runtime bench (lib_success runtime bench) (λ (subject : Subject E).
        record subject { codex = record subject.codex { verifiers = [] } })

  -- The verifier of the call 0 is set to another.
  unfoldable pub with_verifier : E.LibSite → Subject E → Subject E
  unfolding insert_verifier
  with_verifier site subject = record subject {
    codex = record subject.codex { verifiers = insert_verifier subject.codex.verifiers 0 site };
  }

  unfoldable pub verify_lib_absent : Outcome E.Fe (VerifiedOperation E)
  verify_lib_absent =
      test_stand_script runtime bench (lib_success runtime bench)
        (with_verifier (lib_site (lib_id (lib_failure_one runtime bench)) 0))

  unfoldable pub verify_lib_wrong_pos : Outcome E.Fe (VerifiedOperation E)
  verify_lib_wrong_pos =
      test_stand_script runtime bench (lib_success runtime bench)
        (with_verifier (lib_site (lib_id (lib_success runtime bench)) 1))

  unfoldable pub verify_wrong_lib_id : Outcome E.Fe (VerifiedOperation E)
  verify_wrong_lib_id =
      test_stand_repo runtime bench (lib_id (lib_success runtime bench))
        (invalid_repo runtime (lib_failure_one runtime bench)) (λ subject. subject)
