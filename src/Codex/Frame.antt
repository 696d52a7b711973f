-- ===== src/Codex/Frame.antt =====
-- What `Codex::verify` (src/codex.rs) depends on: the memory where the operation points, and not
-- whether an input is named once.
use mathlib.Core.Path.{fun_ext}
use ultrasonic.Prelude.{
  ◌≤◌, ◌≡◌, refl, sym, ap, ◌∙◌, some, List, [], ◌∷◌, length, get_elem?, All, arith,
}
use ultrasonic.Externals.{Externals}
use ultrasonic.State.Value.{StateValue}
use ultrasonic.Ids.{ContractId}
use ultrasonic.Operation.{CellAddr, Input, Operation}
use ultrasonic.Codex.{Codex, Memory, LibRepo, Runtime}
use ultrasonic.Codex.Outcome.{ok, ◌>>=◌, no_immutable_input}
use ultrasonic.Codex.Verify.{push, ok_or, check_input, check_inputs, read_immutable, verify}
use ultrasonic.Codex.Spec.{ResetLaws, fresh, Accepts}
use ultrasonic.Codex.Inputs.{check_inputs-ok, check_inputs-Accepts}

module _ {E : Externals} (runtime : Runtime E) (repo : LibRepo E) where
  open runtime use {lock_vm}

  -- Two memories that agree at the addresses in `ins`, and in `addrs`.
  abbrev pub AgreeIn : Memory E → Memory E → List (Input E.Fe) → Type 0
  AgreeIn m n ins =
      All (λ (input : Input E.Fe). m.destructible input.addr ≡ n.destructible input.addr) ins

  abbrev pub AgreeAt : Memory E → Memory E → List CellAddr → Type 0
  AgreeAt m n addrs = All (λ addr. m.immutable addr ≡ n.immutable addr) addrs

  check_inputs-agree :
      (m n : Memory E) (ins : List (Input E.Fe)) (vm : lock_vm.Vm) (acc : List (StateValue E.Fe))
      → AgreeIn m n ins
      → check_inputs runtime repo m ins vm acc ≡ check_inputs runtime repo n ins vm acc
  unfolding check_inputs check_input
  check_inputs-agree m n [] vm acc h = refl
  check_inputs-agree m n (input ∷ rest) vm acc (here, later) = rw here (
      ap (λ k. check_input runtime repo n input vm acc >>= k)
        (fun_ext (λ state. check_inputs-agree m n rest state.0 state.1 later)))

  read_immutable-agree :
      (m n : Memory E) (addrs : List CellAddr) (acc : List (StateValue E.Fe))
      → AgreeAt m n addrs
      → read_immutable runtime repo m addrs acc ≡ read_immutable runtime repo n addrs acc
  unfolding read_immutable
  read_immutable-agree m n [] acc h = refl
  read_immutable-agree m n (addr ∷ rest) acc (here, later) = rw here (
      ap (λ k. ok_or runtime repo (n.immutable addr) (no_immutable_input addr) >>= k)
        (fun_ext (λ value. read_immutable-agree m n rest (push acc value) later)))

  -- Verification reads the memory only at the addresses that the operation names: memories that agree
  -- there give one result, errors and panics included.
  pub verify-frame :
      (codex : Codex E) (m n : Memory E) (contract_id : ContractId) (operation : Operation E)
      → AgreeIn m n operation.destructible_in
      → AgreeAt m n operation.immutable_in
      → verify runtime repo codex contract_id operation m
        ≡ verify runtime repo codex contract_id operation n
  unfolding verify
  verify-frame codex m n contract_id operation inputs constants =
      rw (check_inputs-agree m n operation.destructible_in _ [] inputs)
        (rw (read_immutable-agree m n operation.immutable_in [] constants) refl)

  -- Naming an unlocked input twice is accepted by the loop over the inputs wherever naming it once is,
  -- and its data is then there twice, if there is room for it. A reset of the machine for locks is taken
  -- to make it as it was made.
  pub check_inputs-twice :
      (codex : Codex E) (laws : ResetLaws lock_vm) (memory : Memory E) (input : Input E.Fe)
      (rest : List (Input E.Fe)) (values : List (StateValue E.Fe))
      → length rest ≤ 65533
      → check_inputs runtime repo memory (input ∷ rest) (fresh runtime repo codex) [] ≡ ok values
      → (value : StateValue E.Fe) × (check_inputs runtime repo memory
            (input ∷ input ∷ rest)
            (fresh runtime repo codex)
            []
          ≡ ok (value ∷ values))
        × (get_elem? values 0 ≡ some value)
  check_inputs-twice codex laws memory input rest values small h =
      let (found, accepts, same) =
        check_inputs-ok runtime repo codex laws memory (input ∷ rest) [] (omega arith) h in
      twice found accepts same
    where
      twice :
          (found : List (StateValue E.Fe))
          → Accepts runtime repo codex memory (input ∷ rest) found
          → values ≡ found
          → (value : StateValue E.Fe) × (check_inputs runtime repo memory
                (input ∷ input ∷ rest)
                (fresh runtime repo codex)
                []
              ≡ ok (value ∷ values))
            × (get_elem? values 0 ≡ some value)
      twice [] accepts same = absurd accepts
      twice (value ∷ found) (opens, later) same = (
        value,
        check_inputs-Accepts runtime repo codex laws memory (input ∷ input ∷ rest) []
              (value ∷ value ∷ found) (omega arith) (opens, (opens, later))
            ∙ ap (λ l. ok (value ∷ l)) (sym same),
        ap (λ l. get_elem? l 0) same,
      )
