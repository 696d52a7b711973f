-- ===== src/Codex/Opened.antt =====
-- What the locks of a verified operation ran on (src/codex.rs).
use ultrasonic.Prelude.{◌≡◌, ◌⊎◌, inl, inr, none, some, Option-cases, List, [], ◌∷◌, All, done}
use mathlib.Core.Path.{subst}
use ultrasonic.Externals.{Externals, Status}
use ultrasonic.State.{StateCell}
use ultrasonic.State.Value.{StateValue}
use ultrasonic.Ids.{ContractId}
use ultrasonic.Operation.{Input, Operation, VerifiedOperation}
use ultrasonic.Codex.{Codex, Memory, LibRepo, Runtime}
use ultrasonic.Codex.Outcome.{ok}
use ultrasonic.Codex.Verify.{verify, armed, resolver}
use ultrasonic.Codex.Spec.{ResetLaws, fresh, Accepts, LockHolds}
use ultrasonic.Codex.Correct.{IsConfined, verify-ok_iff}
use ultrasonic.Codex.Armed.{RegisterLaws, Holds, AllDiffer, armed-registers}

module _ {E : Externals} (runtime : Runtime E) (repo : LibRepo E) (codex : Codex E)
    (memory : Memory E) where
  open runtime use {lock_vm, regs}
  open regs use {e1, e2, e3, e4, e5}

  -- The cell of an input has no lock, or its lock ended with success on a machine that held this.
  abbrev pub Opened : Input E.Fe → Type 0
  Opened named =
      (cell : StateCell E) × (memory.destructible named.addr ≡ some cell)
      × ((cell.lock ≡ none)
          ⊎ ((site : E.LibSite) × (vm : lock_vm.Vm) × (after : lock_vm.Vm) × (cell.lock ≡ some site)
              × Holds runtime vm cell named.witness
              × (lock_vm.exec vm site tt (resolver runtime repo) ≡ done (Status.ok, after))))

  module _ (registers : RegisterLaws lock_vm)
      (differ : AllDiffer (e1 ∷ e2 ∷ e3 ∷ e4 ∷ e5 ∷ [])) where
    Accepts-Opened :
        (ins : List (Input E.Fe)) (values : List (StateValue E.Fe))
        → Accepts runtime repo codex memory ins values
        → All Opened ins
    Accepts-Opened [] [] h = tt
    Accepts-Opened (named ∷ rest) (value ∷ values) ((cell, found, same, opens), h) = (
      (
        cell,
        found,
        elim (Option-cases cell.lock) [
          | inl free ↦ inl free
          | inr (site, locked) ↦
              let (after, ends) =
                subst (LockHolds runtime repo codex cell named.witness) locked opens in
              inr (
                site,
                armed runtime repo (fresh runtime repo codex) cell named.witness,
                after,
                locked,
                armed-registers runtime repo codex registers cell named.witness differ,
                ends,
              )
        ],
      ),
      Accepts-Opened rest values h,
    )
    Accepts-Opened [] (value ∷ values) h = absurd h
    Accepts-Opened (named ∷ rest) [] h = absurd h

    -- An operation is verified only if the memory has the cell of each of its destructible inputs, and
    -- each cell that has a lock was unlocked: the lock ended with success on a machine that held the
    -- token of the cell in `E1` and the elements of the witness in `E2` to `E5`, in order and absent where
    -- the witness has no more, and nothing else, such as of the inputs before it. The vectors of the
    -- operation are within the bounds of their types, and a reset of the machine for locks makes it as it
    -- was made. Its registers keep what is set and are not set at first, and `E1` to `E5` are different.
    pub verify-Opened :
        ResetLaws lock_vm
        → (contract_id : ContractId) (operation : Operation E) (v : VerifiedOperation E)
        → IsConfined operation
        → verify runtime repo codex contract_id operation memory ≡ ok v
        → All Opened operation.destructible_in
    verify-Opened laws contract_id operation v small h =
        let ((values, constants, site, vm, (own, accepts, reads), found, runs), cached) =
          (verify-ok_iff runtime repo codex laws memory contract_id operation v small).0 h in
        Accepts-Opened operation.destructible_in values accepts
