-- ===== src/Examples/ReadRuns.antt =====
-- Addresses read from text (src/operation.rs), inputs in another order and the genesis of an issue
-- (src/codex.rs, src/issue.rs), at concrete values.
use mathlib.Core.List.{Permᴰ}
use ultrasonic.Prelude.{
  ℕ, ◌≡◌, refl, [], ◌∷◌, none, some, map, ◌==◌, if◌then◌else◌, ok, arith, inr, List,
}
use ultrasonic.State.Value
use ultrasonic.State.Value.{StateValue}
use ultrasonic.State.Auth.{to_fe256}
use ultrasonic.Operation.{Genesis, CellAddr, Input}
use ultrasonic.Operation.Text.{addr_from_str}
use ultrasonic.Operation.Text.Exact.{addr_from_str_iff}
use ultrasonic.Codex.{Memory}
use ultrasonic.Codex.Outcome
use ultrasonic.Codex.Outcome.{CallError}
use ultrasonic.Codex.Spec.{fresh}
use ultrasonic.Codex.Verify.{
  verify, check_inputs, armed, resolver, checked, put_witness, lookup, run_lock, lock_result,
  check_input, ok_or, push, failure,
}
use ultrasonic.Codex.Permute.{check_inputs-perm}
use ultrasonic.Issue.{contract_id}
use ultrasonic.Issue.Founding.{verify-genesis, first_operation}
use ultrasonic.Baid64.{opid_text}
use ultrasonic.Examples.Machine.{outside}
use ultrasonic.Examples.Encodings.{plain}
use ultrasonic.Examples.Items.{encoders, issue_encoders}
use ultrasonic.Examples.Texts.{baid64}
use ultrasonic.Examples.CommitRuns.{issue}
use ultrasonic.Examples.Contract.{
  runtime, honest, codex, memory, cell, address, input, genesis, lock_vm-ResetLaws,
}

-- `258` with a plus in front, behind a colon.
abbrev signed : List ℕ
signed = 201 ∷ 202 ∷ b':' ∷ b'+' ∷ b'2' ∷ b'5' ∷ b'8' ∷ []

abbrev named : CellAddr
named = record { opid = record { bytes = 1 ∷ 2 ∷ [] }; pos = 258 }

addr_from_str_iff_example : addr_from_str (opid_text baid64) signed ≡ ok named
unfolding ultrasonic.Baid64.opid_from_str ultrasonic.Baid64.opid_form
addr_from_str_iff_example = ((addr_from_str_iff (opid_text baid64) signed).0 named).1 (
  201 ∷ 202 ∷ [],
  b'+' ∷ b'2' ∷ b'5' ∷ b'8' ∷ [],
  refl,
  ((λ e. omega arith), ((λ e. omega arith), tt)),
  refl,
  (
    b'2' ∷ b'5' ∷ b'8' ∷ [],
    inr refl,
    (λ e. cc),
    ((omega arith, omega arith), ((omega arith, omega arith), ((omega arith, omega arith), tt))),
    refl,
    omega arith,
  ),
)

-- A second cell, without a lock and with another value, beside the one at position 0.
abbrev two_cells : Memory outside
two_cells = record memory {
  destructible = λ addr.
      if addr.pos == 0
      then some cell
      else some (record cell { «data» = StateValue.single 6; lock = none });
}

abbrev unlocked : Input ℕ
unlocked = record (input 40) { addr = address 2 }

check_inputs-perm_example :
    (values : List (StateValue ℕ)) × Permᴰ (StateValue.single 5 ∷ StateValue.single 6 ∷ []) values
    × (check_inputs runtime honest two_cells
          (unlocked ∷ input 40 ∷ [])
          (fresh runtime honest codex)
          []
        ≡ Outcome.ok values)
    × (map {A = StateValue ℕ} some (StateValue.single 5 ∷ StateValue.single 6 ∷ [])
        ≡ some (StateValue.single 5) ∷ some (StateValue.single 6) ∷ [])
    × (map some values ≡ some (StateValue.single 6) ∷ some (StateValue.single 5) ∷ [])
unfolding check_inputs check_input run_lock lock_result armed resolver checked put_witness to_fe256
    Value.get ok_or push
check_inputs-perm_example =
    check_inputs-perm runtime honest codex lock_vm-ResetLaws two_cells (input 40 ∷ unlocked ∷ [])
      (unlocked ∷ input 40 ∷ []) (StateValue.single 5 ∷ StateValue.single 6 ∷ []) (omega arith)
      (Permᴰ.swap refl refl) refl

-- A genesis for the call that the codex has a verifier for.
abbrev callable : Genesis outside
callable = record genesis { call_id = 3 }

-- The verifier refuses it, since it has no input.
verify-genesis_example :
    verify runtime honest codex
      (contract_id plain encoders issue_encoders (issue callable))
      (first_operation runtime honest plain encoders issue_encoders (issue callable))
      memory
    ≡ Outcome.err CallError.script_unspecified
unfolding lookup resolver checked failure
verify-genesis_example =
    ((verify-genesis runtime honest plain encoders issue_encoders (issue callable) memory
          (λ operation. refl)).1
        CallError.script_unspecified).1
      (inr (30, _, (refl, refl), refl))
