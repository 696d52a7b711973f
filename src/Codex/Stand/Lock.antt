-- ===== src/Codex/Stand/Lock.antt =====
-- The lock script on the test stand of src/codex.rs.
use mathlib.Core.Path.{subst}
use ultrasonic.Prelude.{
  ℕ, ◌+◌, ◌<◌, ◌≡◌, ◌≢◌, ◌↔◌, refl, sym, ap, ◌∙◌, none, some, List, [], ◌∷◌, get_elem?, arith, All,
  true,
}
use ultrasonic.Externals.{Externals}
use ultrasonic.State.Value.{StateValue, into_iter}
use ultrasonic.State.Auth.{AuthToken, to_fe256}
use ultrasonic.Operation.{VerifiedOperation, new_unchecked}
use ultrasonic.Codex.{Runtime}
use ultrasonic.Codex.Outcome.{Outcome, ok, err, lock}
use ultrasonic.Codex.Verify.{armed, resolver, checked, lookup, context_of}
use ultrasonic.Codex.Spec.{ResetLaws, fresh, blocked, here, locked, Reads}
use ultrasonic.Codex.Correct.{IsConfined, verify-ok_iff, verify-err_iff}
use ultrasonic.Codex.Armed.{RegisterLaws, AllDiffer, Holds, armed-registers, armed-keeps}
use ultrasonic.Codex.Stand.Script.{
  Faulty, no_token, no_witness, too_much, Resolves, CodeApi, CodeLaws, Halts, total,
}
use ultrasonic.Codex.Stand.Body.{lock_body-passes, lock_body-fails}
use ultrasonic.Codex.Stand.{lib_lock, lock_body, Bench, repo_of, contract_id}
use ultrasonic.Codex.Stand.Cases.{protected}
use ultrasonic.Codex.Stand.Verdict
use ultrasonic.Codex.Stand.Verdict.{Verdict, opened, refused}

module _ {E : Externals} (runtime : Runtime E) (bench : Bench E) (auth : AuthToken E.Fe)
    (witness : StateValue E.Fe) where
  open runtime use {lock_vm, main_vm, regs, lib_id}
  open bench.asm use {stop}
  open regs use {ea, e1, e2, e3, e4, e5, e8}
  open bench use {lib_site, fe256}

  module _ (laws : ResetLaws lock_vm) (code : CodeApi runtime bench)
      (code_laws : CodeLaws runtime bench laws code) (registers : RegisterLaws lock_vm)
      (same_id : runtime.lib_id_eq
          (lib_id (lib_lock runtime bench))
          (lib_id (lib_lock runtime bench))
        ≡ true)
      (free : AllDiffer (ea ∷ e8 ∷ e1 ∷ e2 ∷ e3 ∷ e4 ∷ e5 ∷ []))
      (bare : bench.dumb_operation.immutable_in ≡ [])
      (cheap : total runtime bench laws code (stop ∷ lock_body runtime bench)
        < Verdict.limit runtime bench) where
    resolves :
        Resolves runtime bench
          (resolver runtime (Verdict.repo runtime bench auth witness))
          (stop ∷ lock_body runtime bench)
    unfolding resolver checked repo_of
    resolves = rw same_id (rw same_id refl)

    small : IsConfined (Verdict.operation runtime bench auth witness)
    small = (omega arith, rw bare (omega arith))

    abbrev machine : lock_vm.Vm
    machine =
        armed runtime (Verdict.repo runtime bench auth witness)
          (fresh runtime (Verdict.repo runtime bench auth witness)
            (Verdict.codex runtime bench auth witness))
          (Verdict.cell runtime bench auth witness) witness

    held : Holds runtime machine (Verdict.cell runtime bench auth witness) witness
    held =
        armed-registers runtime (Verdict.repo runtime bench auth witness)
          (Verdict.codex runtime bench auth witness) registers
          (Verdict.cell runtime bench auth witness) witness free.1.1

    -- The lock starts with the second instruction.
    second :
        lock_vm.exec machine
          (lib_site (lib_id (lib_lock runtime bench)) 1)
          tt
          (resolver runtime (Verdict.repo runtime bench auth witness))
        ≡ code.run (code.spent machine) (lock_body runtime bench) machine
    unfolding lock_body
    second =
        code_laws.exec-second machine (resolver runtime (Verdict.repo runtime bench auth witness)) _
          _ resolves

    -- The lock runs on a machine that is to halt on a failed check, and has not spent anything.
    machine-keeps :
        {X : Type 0} (view : lock_vm.Vm → X)
        → ((vm : lock_vm.Vm) (r : E.RegE) (v : E.Fe) → view (lock_vm.set vm r v) ≡ view vm)
        → view machine
          ≡ view (
              fresh runtime
                (Verdict.repo runtime bench auth witness)
                (Verdict.codex runtime bench auth witness))
    machine-keeps view kept =
        armed-keeps runtime (Verdict.repo runtime bench auth witness) view kept witness _
          (Verdict.cell runtime bench auth witness)

    ready : Halts runtime bench laws code (Verdict.limit runtime bench) machine
    ready = (
      machine-keeps laws.config_of laws.config_of-set ∙ laws.config_of-with_config _ _,
      machine-keeps code.ck code_laws.ck-set ∙ code_laws.ck-with_config _ _,
    )

    enough :
        code.spent machine + total runtime bench laws code (lock_body runtime bench)
        < Verdict.limit runtime bench
    enough = omega (
      arith,
      cheap,
      machine-keeps code.spent code_laws.spent-set ∙ code_laws.spent-with_config _ _,
    )

    protected-refused :
        (n : ℕ)
        → Faulty
            (Verdict.key runtime bench)
            (some (to_fe256 auth))
            (get_elem? (into_iter witness) 0)
            (get_elem? (into_iter witness) 1 ≢ none)
            n
        → protected runtime bench auth 1 witness ≡ err (lock (some (fe256 n)))
    protected-refused n fault =
        let (after, ends, code) =
          lock_body-fails runtime bench laws code code_laws registers (Verdict.limit runtime bench)
            (code.spent machine) machine free ready enough n (in_machine n fault) in
        (Verdict.protected-verify runtime bench auth witness)
        ∙ (verify-err_iff runtime (Verdict.repo runtime bench auth witness)
              (Verdict.codex runtime bench auth witness) laws
              (Verdict.memory runtime bench auth witness) (contract_id runtime bench)
              (Verdict.operation runtime bench auth witness) (lock (some (fe256 n))) small).1
            (blocked refl (
              here (
                locked (Verdict.cell runtime bench auth witness)
                  (lib_site (lib_id (lib_lock runtime bench)) 1) after
                  (Verdict.found runtime bench auth witness) refl (second ∙ ends)
                  (ap lock (sym code)))))
      where
        in_machine :
            (n : ℕ)
            → Faulty
                (Verdict.key runtime bench)
                (some (to_fe256 auth))
                (get_elem? (into_iter witness) 0)
                (get_elem? (into_iter witness) 1 ≢ none)
                n
            → Faulty
                (Verdict.key runtime bench)
                (lock_vm.get machine e1)
                (lock_vm.get machine e2)
                (¬ All (λ r. lock_vm.get machine r ≡ none) (e3 ∷ e4 ∷ e5 ∷ []))
                n
        in_machine _ (no_token other) = no_token (λ e. other (sym held.0 ∙ e))
        in_machine _ (no_witness token other) =
            no_witness (held.0 ∙ token) (λ e. other (sym (held.1 0 e2 refl) ∙ e))
        in_machine _ (too_much token first more) =
            too_much (held.0 ∙ token) (held.1 0 e2 refl ∙ first)
              (λ unset. more (sym (held.1 1 e3 refl) ∙ unset.0))

    protected-opened :
        to_fe256 auth ≡ (Verdict.key runtime bench)
        → into_iter witness ≡ (Verdict.key runtime bench) ∷ []
        → protected runtime bench auth 1 witness
          ≡ ok (
              new_unchecked
                (runtime.opid (Verdict.operation runtime bench auth witness))
                (Verdict.operation runtime bench auth witness))
    unfolding lookup
    protected-opened token given =
        let at : (k : ℕ) (r : E.RegE)
            → get_elem? (e2 ∷ e3 ∷ e4 ∷ e5 ∷ []) k ≡ some r
            → lock_vm.get machine r ≡ get_elem? ((Verdict.key runtime bench) ∷ []) k =
          λ k r e. held.1 k r e ∙ ap (λ (xs : List E.Fe). get_elem? xs k) given in
        let (after, ends) =
          lock_body-passes runtime bench laws code code_laws registers (Verdict.limit runtime bench)
            (code.spent machine) machine free ready enough (held.0 ∙ ap some token) (at 0 e2 refl)
            (at 1 e3 refl, (at 2 e4 refl, (at 3 e5 refl, tt))) in
        let (stopped, runs) =
          code_laws.exec-stop (Verdict.limit runtime bench) bench.field_order_secp
            (context_of runtime (Verdict.repo runtime bench auth witness)
              (Verdict.operation runtime bench auth witness) (StateValue.none ∷ []) [])
            (resolver runtime (Verdict.repo runtime bench auth witness)) (lock_body runtime bench)
            (omega (arith, cheap)) resolves in
        let nothing : Reads runtime (Verdict.repo runtime bench auth witness)
            (Verdict.codex runtime bench auth witness) (Verdict.memory runtime bench auth witness)
            (Verdict.operation runtime bench auth witness).immutable_in [] =
          subst
            (λ addrs.
              Reads runtime (Verdict.repo runtime bench auth witness)
                (Verdict.codex runtime bench auth witness)
                (Verdict.memory runtime bench auth witness) addrs [])
            (sym bare) tt in
        (Verdict.protected-verify runtime bench auth witness)
        ∙ (verify-ok_iff runtime (Verdict.repo runtime bench auth witness)
              (Verdict.codex runtime bench auth witness) laws
              (Verdict.memory runtime bench auth witness) (contract_id runtime bench)
              (Verdict.operation runtime bench auth witness) _ small).1
            (
              (
                StateValue.none ∷ [],
                [],
                lib_site (lib_id (lib_lock runtime bench)) 0,
                stopped,
                (
                  refl,
                  (
                    (
                      (Verdict.cell runtime bench auth witness),
                      (Verdict.found runtime bench auth witness),
                      refl,
                      (after, second ∙ ends),
                    ),
                    tt,
                  ),
                  nothing,
                ),
                refl,
                runs,
              ),
              refl,
            )

    protected-Verdict :
        (outcome : Outcome E.Fe (VerifiedOperation E))
        → Verdict runtime bench auth witness outcome
        → protected runtime bench auth 1 witness ≡ outcome
    protected-Verdict _ (opened token given) = protected-opened token given
    protected-Verdict _ (refused n fault) = protected-refused n fault

    -- A cell that the lock script of the tests protects is opened by the secret alone. The operation
    -- that names it has one of these outcomes, and each just if its condition holds: it is verified,
    -- if the token of the cell is the secret and the witness is the secret and no more; it is refused
    -- with the number 1, if the token is not the secret, with 2, if the token is and the witness does
    -- not begin with it, and with 3, if both do and the witness gives more elements. Equality of field
    -- elements is decidable, and the id of the library equals itself. The instructions of the script
    -- do what zk-aluvm documents of a machine whose configuration makes it halt on a failed check, as
    -- that of the stand does, while less is spent than its limit, and all of them together cost less
    -- than the limit of the stand. A reset of the machine for locks makes it as it was made, its
    -- registers keep what is set, are not set at first and are different, and the operation that the
    -- stand starts from has no immutable inputs.
    pub protected_iff :
        ((a b : E.Fe) → Dec (a ≡ b))
        → (outcome : Outcome E.Fe (VerifiedOperation E))
        → (protected runtime bench auth 1 witness ≡ outcome)
          ↔ Verdict runtime bench auth witness outcome
    protected_iff same outcome = (
      (λ h.
          let (found_out, given) = Verdict.verdict runtime bench auth witness same in
          subst (Verdict runtime bench auth witness) (sym (protected-Verdict found_out given) ∙ h)
            given),
      protected-Verdict outcome,
    )
