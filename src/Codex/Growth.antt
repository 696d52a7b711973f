-- ===== src/Codex/Growth.antt =====
-- Memories that grow (src/codex.rs): what was accepted stays accepted.
use ultrasonic.Prelude.{◌≡◌, sym, ◌∙◌, some, List, [], ◌∷◌}
use ultrasonic.Externals.{Externals}
use ultrasonic.State.{StateCell}
use ultrasonic.State.Value.{StateValue}
use ultrasonic.Ids.{ContractId}
use ultrasonic.Operation.{CellAddr, Input, Operation, VerifiedOperation}
use ultrasonic.Codex.{Codex, Memory, LibRepo, Runtime}
use ultrasonic.Codex.Outcome.{ok}
use ultrasonic.Codex.Verify.{verify}
use ultrasonic.Codex.Spec.{ResetLaws, Accepts, Reads}
use ultrasonic.Codex.Correct.{IsConfined, verify-ok_iff}
use ultrasonic.Codex.Frame.{AgreeIn, AgreeAt, verify-frame}

-- A memory that has all the cells of another, with what they hold there.
pub record Extends {E : Externals} (m n : Memory E) : Type 0 where
  pub destructible :
      (addr : CellAddr) (cell : StateCell E)
      → m.destructible addr ≡ some cell
      → n.destructible addr ≡ some cell
  pub immutable :
      (addr : CellAddr) (value : StateValue E.Fe)
      → m.immutable addr ≡ some value
      → n.immutable addr ≡ some value

module _ {E : Externals} (runtime : Runtime E) (repo : LibRepo E) (codex : Codex E) (m n : Memory E)
    (grown : Extends m n) where
  Accepts-AgreeIn :
      (ins : List (Input E.Fe)) (values : List (StateValue E.Fe))
      → Accepts runtime repo codex m ins values
      → AgreeIn runtime repo m n ins
  Accepts-AgreeIn [] [] h = tt
  Accepts-AgreeIn (named ∷ rest) (value ∷ values) ((cell, found, same, opens), h) =
      (found ∙ sym (grown.destructible named.addr cell found), Accepts-AgreeIn rest values h)
  Accepts-AgreeIn [] (value ∷ values) h = absurd h
  Accepts-AgreeIn (named ∷ rest) [] h = absurd h

  Reads-AgreeAt :
      (addrs : List CellAddr) (values : List (StateValue E.Fe))
      → Reads runtime repo codex m addrs values
      → AgreeAt runtime repo m n addrs
  Reads-AgreeAt [] [] h = tt
  Reads-AgreeAt (addr ∷ rest) (value ∷ values) (found, h) =
      (found ∙ sym (grown.immutable addr value found), Reads-AgreeAt rest values h)
  Reads-AgreeAt [] (value ∷ values) h = absurd h
  Reads-AgreeAt (addr ∷ rest) [] h = absurd h

  -- An operation that is verified on a memory is verified, with the same result, on every memory that
  -- has all of its cells, whatever else it has. The vectors of the operation are within the bounds of
  -- their types, and a reset of the machine for locks makes it as it was made.
  pub verify-grows :
      ResetLaws runtime.lock_vm
      → (contract_id : ContractId) (operation : Operation E) (v : VerifiedOperation E)
      → IsConfined operation
      → verify runtime repo codex contract_id operation m ≡ ok v
      → verify runtime repo codex contract_id operation n ≡ ok v
  verify-grows laws contract_id operation v small h =
      let ((values, constants, site, vm, (own, accepts, reads), found, runs), cached) =
        (verify-ok_iff runtime repo codex laws m contract_id operation v small).0 h in
      sym (
        verify-frame runtime repo codex m n contract_id operation
          (Accepts-AgreeIn operation.destructible_in values accepts)
          (Reads-AgreeAt operation.immutable_in constants reads))
      ∙ h
