-- ===== src/Codex/Inputs.antt =====
-- The two loops of phase 1 (src/codex.rs) against their specification.
use mathlib.Core.List.{append-nil, append_assoc}
use ultrasonic.Prelude.{
  ◌+◌, ◌≤◌, ◌<◌, ◌≡◌, refl, sym, ap, ◌∙◌, Option, none, some, List, [], ◌∷◌, ◌++◌, length,
  length-append, arith, inl, inr,
}
use ultrasonic.Externals.{Externals}
use ultrasonic.State.Value.{StateValue}
use ultrasonic.Operation.{Input}
use ultrasonic.Codex.{Codex, Memory, LibRepo, Runtime}
use ultrasonic.Codex.Outcome.{ok, err, >>=-eq-ok, >>=-eq-err, CallError}
use ultrasonic.Codex.Verify.{push, ok_or, check_input, check_inputs}
use ultrasonic.Codex.Spec.{
  ResetLaws, fresh, Unlocks, Accepts, Blocks, missing, locked, Stops, here, there,
}
use ultrasonic.Codex.Locks.{run_lock-fails, run_lock-ok, run_lock-holds, run_lock-err}

-- A push into a vector that is not full.
pub push_lem {ℓ} :
    {A : Type ℓ} (items : List A) (item : A)
    → length items < 65535
    → push items item ≡ items ++ item ∷ []
unfolding push
push_lem items item h = ground arith

pub ok_or-ok :
    {E : Externals} (runtime : Runtime E) (repo : LibRepo E) {A : Type 0} (o : Option A)
    (e : CallError E.Fe) {a : A}
    → ok_or runtime repo o e ≡ ok a
    → o ≡ some a
unfolding ok_or
ok_or-ok runtime repo none e h = cc
ok_or-ok runtime repo (some a) e h = cc

pub ok_or-err :
    {E : Externals} (runtime : Runtime E) (repo : LibRepo E) {A : Type 0} (o : Option A)
    {e e' : CallError E.Fe}
    → ok_or runtime repo o e ≡ err e'
    → (o ≡ none) × (e' ≡ e)
unfolding ok_or
ok_or-err runtime repo none h = (refl, cc)
ok_or-err runtime repo (some a) h = cc

module _ {E : Externals} (runtime : Runtime E) (repo : LibRepo E) (codex : Codex E)
    (laws : ResetLaws runtime.lock_vm) (memory : Memory E) where
  open runtime use {lock_vm}

  abbrev start : lock_vm.Vm
  start = fresh runtime repo codex

  check_input-ok :
      (input : Input E.Fe) (inputs : List (StateValue E.Fe))
      {result : lock_vm.Vm × List (StateValue E.Fe)}
      → length inputs < 65535
      → check_input runtime repo memory input start inputs ≡ ok result
      → (value : StateValue E.Fe) × Unlocks runtime repo codex memory input value
        × (result ≡ (start, inputs ++ value ∷ []))
  unfolding check_input
  check_input-ok input inputs room h =
      let (cell, found, h₁) = >>=-eq-ok _ _ h in
      let (vm, opened, h₂) = >>=-eq-ok _ _ h₁ in
      let (again, holds) =
        run_lock-ok runtime repo codex laws cell input.witness cell.lock opened in
      (
        cell.«data»,
        (cell, ok_or-ok runtime repo _ _ found, refl, holds),
        cc (h₂, again, push_lem inputs cell.«data» room),
      )

  check_input-Unlocks :
      (input : Input E.Fe) (inputs : List (StateValue E.Fe)) (value : StateValue E.Fe)
      → length inputs < 65535
      → Unlocks runtime repo codex memory input value
      → check_input runtime repo memory input start inputs ≡ ok (start, inputs ++ value ∷ [])
  unfolding check_input ok_or
  check_input-Unlocks input inputs value room (cell, found, same, holds) = rw (
    found,
    run_lock-holds runtime repo codex laws cell input.witness cell.lock holds,
    push_lem inputs cell.«data» room,
    same,
  )

  check_input-err :
      (input : Input E.Fe) (inputs : List (StateValue E.Fe)) {e : CallError E.Fe}
      → check_input runtime repo memory input start inputs ≡ err e
      → Blocks runtime repo codex memory input e
  unfolding check_input
  check_input-err input inputs h =
      let split = >>=-eq-err _ _ h in
      elim split [
        | inl absent ↦ let (gone, code) = ok_or-err runtime repo _ absent in missing gone code
        | inr (cell, found, h₁) ↦
            let split₁ = >>=-eq-err _ _ h₁ in
            elim split₁ [
              | inl shut ↦
                  let (site, vm, lk, ends, code) =
                    run_lock-err runtime repo codex laws cell input.witness cell.lock shut in
                  locked cell site vm (ok_or-ok runtime repo _ _ found) lk ends code
              | inr (vm, opened, h₂) ↦ cc
            ]
      ]

  check_input-Blocks :
      (input : Input E.Fe) (inputs : List (StateValue E.Fe)) (e : CallError E.Fe)
      → Blocks runtime repo codex memory input e
      → check_input runtime repo memory input start inputs ≡ err e
  unfolding check_input ok_or
  check_input-Blocks input inputs e (missing absent code) = rw (absent, code)
  check_input-Blocks input inputs e (locked cell site vm found lk ends code) = rw (
    found,
    run_lock-fails runtime repo codex laws cell input.witness cell.lock site vm lk ends,
    code,
  )

  -- The loop over the inputs: what it gives on acceptance, and where it stops.
  pub check_inputs-ok :
      (ins : List (Input E.Fe)) (acc : List (StateValue E.Fe)) {result : List (StateValue E.Fe)}
      → length acc + length ins ≤ 65535
      → check_inputs runtime repo memory ins start acc ≡ ok result
      → (values : List (StateValue E.Fe)) × Accepts runtime repo codex memory ins values
        × (result ≡ acc ++ values)
  unfolding check_inputs
  check_inputs-ok [] acc room h = ([], tt, cc (h, append-nil acc))
  check_inputs-ok (input ∷ rest) acc room h =
      let (state, first, h₁) = >>=-eq-ok _ _ h in
      let (value, opens, same) = check_input-ok input acc (omega arith) first in
      let (values, others, whole) =
        check_inputs-ok rest (acc ++ value ∷ []) (omega (arith, length-append acc (value ∷ [])))
          (sym (ap (λ c. check_inputs runtime repo memory rest c.0 c.1) same) ∙ h₁) in
      (value ∷ values, (opens, others), whole ∙ append_assoc acc (value ∷ []) values)

  pub check_inputs-Accepts :
      (ins : List (Input E.Fe)) (acc values : List (StateValue E.Fe))
      → length acc + length ins ≤ 65535
      → Accepts runtime repo codex memory ins values
      → check_inputs runtime repo memory ins start acc ≡ ok (acc ++ values)
  unfolding check_inputs
  check_inputs-Accepts [] acc [] room h = rw (append-nil acc)
  check_inputs-Accepts [] acc (value ∷ values) room h = absurd h
  check_inputs-Accepts (input ∷ rest) acc [] room h = absurd h
  check_inputs-Accepts (input ∷ rest) acc (value ∷ values) room (opens, others) =
      rw (check_input-Unlocks input acc value (omega arith) opens) (
        check_inputs-Accepts rest (acc ++ value ∷ []) values
          (omega (arith, length-append acc (value ∷ []))) others
        ∙ ap ok (append_assoc acc (value ∷ []) values))

  -- The first input that is blocked decides the error.
  pub check_inputs-err :
      (ins : List (Input E.Fe)) (acc : List (StateValue E.Fe)) {e : CallError E.Fe}
      → length acc + length ins ≤ 65535
      → check_inputs runtime repo memory ins start acc ≡ err e
      → Stops runtime repo codex memory ins e
  unfolding check_inputs
  check_inputs-err [] acc room h = cc
  check_inputs-err (input ∷ rest) acc room h =
      let split = >>=-eq-err _ _ h in
      elim split [
        | inl first ↦ here (check_input-err input acc first)
        | inr (state, first, h₁) ↦
            let (value, opens, same) = check_input-ok input acc (omega arith) first in
            there value opens (
              check_inputs-err rest (acc ++ value ∷ [])
                (omega (arith, length-append acc (value ∷ [])))
                (sym (ap (λ c. check_inputs runtime repo memory rest c.0 c.1) same) ∙ h₁))
      ]

  pub check_inputs-Stops :
      (ins : List (Input E.Fe)) (acc : List (StateValue E.Fe)) (e : CallError E.Fe)
      → length acc + length ins ≤ 65535
      → Stops runtime repo codex memory ins e
      → check_inputs runtime repo memory ins start acc ≡ err e
  unfolding check_inputs
  check_inputs-Stops [] acc e room h = elim h [ ]
  check_inputs-Stops (input ∷ rest) acc e room (here blocks) =
      rw (check_input-Blocks input acc e blocks)
  check_inputs-Stops (input ∷ rest) acc e room (there value opens later) =
      rw (check_input-Unlocks input acc value (omega arith) opens) (
        check_inputs-Stops rest (acc ++ value ∷ []) e
          (omega (arith, length-append acc (value ∷ []))) later)
