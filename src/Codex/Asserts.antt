-- ===== src/Codex/Asserts.antt =====
-- Builds with debug assertions (src/codex.rs): there a push that a full vector refuses is a panic.
use mathlib.Core.Bool.{not}
use ultrasonic.Prelude.{
  suc, ◌+◌, ◌<◌, ◌≤◌, ◌≡◌, refl, ap, ◌∙◌, true, List, [], ◌∷◌, ◌++◌, length, length-append, ltb,
  if◌then◌else◌, arith,
}
use ultrasonic.Externals.{Externals}
use ultrasonic.State.{StateCell}
use ultrasonic.State.Value.{StateValue}
use ultrasonic.Ids.{ContractId, contract_id_eq}
use ultrasonic.Operation.{CellAddr, Input, Operation, VerifiedOperation}
use ultrasonic.Codex.{Codex, Memory, LibRepo, Runtime}
use ultrasonic.Codex.Outcome.{
  Outcome, ok, err, panicked, ◌>>=◌, wrong_contract, not_found, no_read_once_input,
  no_immutable_input, >>=-eq-ok,
}
use ultrasonic.Codex.Verify.{
  push, lookup, ok_or, run_lock, check_input, check_inputs, read_immutable, main_result, context_of,
  resolver, verify,
}
use ultrasonic.Codex.Correct.{IsConfined}

-- `push` and the `debug_assert!` on what it returns.
unfoldable pub asserted_push {ℓ} : {Fe : Type 0} {A : Type ℓ} → List A → A → Outcome Fe (List A)
asserted_push items item = if ltb (length items) 65535 then ok (items ++ item ∷ []) else panicked

module _ {E : Externals} (runtime : Runtime E) (repo : LibRepo E) where
  open runtime use {lock_vm, main_vm}

  -- The body of the loop over the inputs
  asserted_check_input :
      Memory E
      → Input E.Fe
      → lock_vm.Vm
      → List (StateValue E.Fe)
      → Outcome E.Fe (lock_vm.Vm × List (StateValue E.Fe))
  unfolding asserted_push
  asserted_check_input memory input vm inputs = do
    cell ← ok_or runtime repo (memory.destructible input.addr) (no_read_once_input input.addr)
    vm' ← run_lock runtime repo vm cell input.witness cell.lock
    inputs' ← asserted_push inputs cell.«data»
    ok (vm', inputs')

  -- Phase 1, the destructible inputs
  asserted_check_inputs :
      Memory E
      → List (Input E.Fe)
      → lock_vm.Vm
      → List (StateValue E.Fe)
      → Outcome E.Fe (List (StateValue E.Fe))
  unfolding asserted_check_input
  asserted_check_inputs memory [] vm inputs = ok inputs
  asserted_check_inputs memory (input ∷ rest) vm inputs = do
    (vm', inputs') ← asserted_check_input memory input vm inputs
    asserted_check_inputs memory rest vm' inputs'

  -- Phase 1, the immutable inputs
  asserted_read_immutable :
      Memory E → List CellAddr → List (StateValue E.Fe) → Outcome E.Fe (List (StateValue E.Fe))
  unfolding asserted_push
  asserted_read_immutable memory [] inputs = ok inputs
  asserted_read_immutable memory (addr ∷ rest) inputs = do
    value ← ok_or runtime repo (memory.immutable addr) (no_immutable_input addr)
    inputs' ← asserted_push inputs value
    asserted_read_immutable memory rest inputs'

  -- `Codex::verify` in a build with debug assertions
  unfoldable pub asserted_verify :
      Codex E → ContractId → Operation E → Memory E → Outcome E.Fe (VerifiedOperation E)
  unfolding asserted_check_inputs asserted_read_immutable
  asserted_verify codex contract_id operation memory =
      if not (contract_id_eq operation.contract_id contract_id)
      then err (wrong_contract contract_id operation.contract_id)
      else do
        let vm_inputs = lock_vm.with_config codex.input_config codex.field_order
        destructible_inputs ← asserted_check_inputs memory operation.destructible_in vm_inputs []
        immutable_inputs ← asserted_read_immutable memory operation.immutable_in []
        entry_point ←
            ok_or runtime repo (lookup codex.verifiers operation.call_id)
              (not_found operation.call_id)
        let vm_main = main_vm.with_config codex.verification_config codex.field_order
        main_result runtime repo operation (
            main_vm.exec vm_main entry_point
              (context_of runtime repo operation destructible_inputs immutable_inputs)
              (resolver runtime repo))

-- Two steps are equal to two others that begin with the same one and go on alike where it succeeds.
>>=-cong {ℓ κ} :
    {Fe : Type 0} {A : Type ℓ} {B : Type κ} (first : Outcome Fe A) (f g : A → Outcome Fe B)
    → ((made : A) → first ≡ ok made → f made ≡ g made)
    → (first >>= f) ≡ (first >>= g)
>>=-cong panicked f g h = refl
>>=-cong (err code) f g h = refl
>>=-cong (ok made) f g h = h made refl

asserted_push_lem {ℓ} :
    {Fe : Type 0} {A : Type ℓ} (items : List A) (item : A)
    → length items < 65535
    → asserted_push {Fe = Fe} items item ≡ ok (push items item)
unfolding asserted_push push
asserted_push_lem items item room =
    let fits : ltb (length items) 65535 ≡ true = ground (arith, room) in rw fits refl

length-push {ℓ} :
    {A : Type ℓ} (items : List A) (item : A)
    → length items < 65535
    → length (push items item) ≡ suc (length items)
unfolding push
length-push items item room =
    let fits : ltb (length items) 65535 ≡ true = ground (arith, room) in
    rw fits (omega (arith, length-append items (item ∷ [])))

module _ {E : Externals} (runtime : Runtime E) (repo : LibRepo E) where
  open runtime use {lock_vm}

  asserted_check_input_lem :
      (memory : Memory E) (named : Input E.Fe) (vm : lock_vm.Vm) (inputs : List (StateValue E.Fe))
      → length inputs < 65535
      → asserted_check_input runtime repo memory named vm inputs
        ≡ check_input runtime repo memory named vm inputs
  unfolding asserted_check_input check_input
  asserted_check_input_lem memory named vm inputs room =
      >>=-cong (ok_or runtime repo (memory.destructible named.addr) (no_read_once_input named.addr))
        _ _
        (λ cell found.
          >>=-cong (run_lock runtime repo vm cell named.witness cell.lock) _ _ (λ vm' ran.
            ap (λ (r : Outcome E.Fe (List (StateValue E.Fe))). r >>= (λ items. ok (vm', items)))
              (asserted_push_lem inputs cell.«data» room)))

  -- The loop body adds one item.
  length-check_input :
      (memory : Memory E) (named : Input E.Fe) (vm : lock_vm.Vm) (inputs : List (StateValue E.Fe))
      {made : lock_vm.Vm × List (StateValue E.Fe)}
      → length inputs < 65535
      → check_input runtime repo memory named vm inputs ≡ ok made
      → length (made.1) ≡ suc (length inputs)
  unfolding check_input
  length-check_input memory named vm inputs {made} room h =
      let next = λ (cell : StateCell E).
        run_lock runtime repo vm cell named.witness cell.lock
        >>= (λ vm'. ok (vm', push inputs cell.«data»)) in
      let (cell, found, h₁) =
        >>=-eq-ok
          (ok_or runtime repo (memory.destructible named.addr) (no_read_once_input named.addr)) next
          h in
      let (vm', ran, h₂) =
        >>=-eq-ok (run_lock runtime repo vm cell named.witness cell.lock)
          (λ vm'. ok (vm', push inputs cell.«data»)) h₁ in
      let same : push inputs cell.«data» ≡ made.1 = cc in
      omega (arith, ap length same, length-push inputs cell.«data» room)

  asserted_check_inputs_lem :
      (memory : Memory E) (ins : List (Input E.Fe)) (vm : lock_vm.Vm)
      (inputs : List (StateValue E.Fe))
      → length inputs + length ins ≤ 65535
      → asserted_check_inputs runtime repo memory ins vm inputs
        ≡ check_inputs runtime repo memory ins vm inputs
  unfolding asserted_check_inputs check_inputs
  asserted_check_inputs_lem memory [] vm inputs room = refl
  asserted_check_inputs_lem memory (named ∷ rest) vm inputs room =
      ap (λ r. r >>= (λ (vm', inputs'). asserted_check_inputs runtime repo memory rest vm' inputs'))
        (asserted_check_input_lem memory named vm inputs (omega arith))
      ∙ >>=-cong (check_input runtime repo memory named vm inputs) _ _ (λ made h.
        let grown : length (made.1) ≡ suc (length inputs) =
          length-check_input memory named vm inputs (omega arith) h in
        asserted_check_inputs_lem memory rest made.0 made.1 (omega arith))

  asserted_read_immutable_lem :
      (memory : Memory E) (addrs : List CellAddr) (inputs : List (StateValue E.Fe))
      → length inputs + length addrs ≤ 65535
      → asserted_read_immutable runtime repo memory addrs inputs
        ≡ read_immutable runtime repo memory addrs inputs
  unfolding asserted_read_immutable read_immutable
  asserted_read_immutable_lem memory [] inputs room = refl
  asserted_read_immutable_lem memory (addr ∷ rest) inputs room =
      >>=-cong (ok_or runtime repo (memory.immutable addr) (no_immutable_input addr)) _ _
        (λ value found.
          let grown : length (push inputs value) ≡ suc (length inputs) =
            length-push inputs value (omega arith) in
          ap (λ r. r >>= (λ items. asserted_read_immutable runtime repo memory rest items))
            (asserted_push_lem inputs value (omega arith))
          ∙ asserted_read_immutable_lem memory rest (push inputs value) (omega arith))

  -- The debug assertions of the verification never fail: a build with them gives what one without gives,
  -- errors and panics of the machines included, on every operation whose vectors are within the bounds
  -- of their types. So no data that was read is dropped by a push.
  pub asserted_verify_lem :
      (codex : Codex E) (contract_id : ContractId) (operation : Operation E) (memory : Memory E)
      → IsConfined operation
      → asserted_verify runtime repo codex contract_id operation memory
        ≡ verify runtime repo codex contract_id operation memory
  unfolding asserted_verify verify
  asserted_verify_lem codex contract_id operation memory small =
      rw
        (asserted_check_inputs_lem memory operation.destructible_in
          (lock_vm.with_config codex.input_config codex.field_order) [] (omega (arith, small.0)))
        (rw (asserted_read_immutable_lem memory operation.immutable_in [] (omega (arith, small.1)))
          refl)
