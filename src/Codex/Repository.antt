-- ===== src/Codex/Repository.antt =====
-- The repository of libraries and `Codex::verify` (src/codex.rs): a repository that answers with other
-- libraries than it was asked for can stop a verification, and not change its result.
use ultrasonic.Prelude.{
  ◌≡◌, ◌⊎◌, refl, sym, ap, ◌∙◌, true, Bool-cases, Option, none, some, Option-cases, inl, inr,
  is_some, List, [], ◌∷◌, Partial, done,
}
use ultrasonic.Externals.{Externals, Status}
use ultrasonic.State.{StateCell}
use ultrasonic.State.Value
use ultrasonic.State.Value.{StateValue}
use ultrasonic.Ids.{ContractId, contract_id_eq}
use ultrasonic.Operation.{CellAddr, Input, Operation}
use ultrasonic.Codex.{Codex, Memory, LibRepo, VmApi, Runtime}
use ultrasonic.Codex.Outcome.{Outcome, ok, err, panicked, ◌>>=◌, CallError, no_immutable_input}
use ultrasonic.Codex.Verify.{
  push, checked, resolver, put_witness, armed, lock_result, run_lock, ok_or, check_input,
  check_inputs, read_immutable, lookup, main_result, context_of, failure, verify,
}
use ultrasonic.Codex.Panics.{Cheats}

-- The equality test of library ids is true of equal ids only.
abbrev pub IsSound : {E : Externals} → Runtime E → Type 0
IsSound {E} runtime = (a b : E.LibId) → runtime.lib_id_eq a b ≡ true → a ≡ b

-- Two repositories have libraries for the same ids, and do not serve different libraries that have the
-- same id.
abbrev pub ServeAlike : {E : Externals} → Runtime E → LibRepo E → LibRepo E → Type 0
ServeAlike {E} runtime first second =
    ((id : E.LibId) → is_some (first.get_lib id) ≡ is_some (second.get_lib id))
    × ((id : E.LibId) (a b : E.Lib)
        → first.get_lib id ≡ some a
        → second.get_lib id ≡ some b
        → runtime.lib_id a ≡ runtime.lib_id b
        → a ≡ b)

-- Code that gives what other code gives, if it does not panic.
abbrev pub Follows : {Fe A : Type 0} → Outcome Fe A → Outcome Fe A → Type 0
Follows o o' = (o ≡ panicked) ⊎ (o ≡ o')

abbrev pub Answers : {Asked A : Type 0} → (Asked → Partial A) → (Asked → Partial A) → Type 0
Answers r r' = (id : _) → (r id ≡ Partial.panicked) ⊎ (r id ≡ r' id)

-- A machine uses the resolver only by calling it, and panics where a call of it does: with one that
-- panics more often a run panics, or ends in the same way.
abbrev pub IsMonotone : {E : Externals} {Context : Type 0} → VmApi E Context → Type 0
IsMonotone {E} {Context} api =
    (vm : api.Vm) (site : E.LibSite) (context : Context) (r r' : E.LibId → Partial (Option E.Lib))
    → Answers r r'
    → (api.exec vm site context r ≡ Partial.panicked)
      ⊎ (api.exec vm site context r ≡ api.exec vm site context r')

then-Follows :
    {Fe A B : Type 0} (m m' : Outcome Fe A) (f f' : A → Outcome Fe B)
    → Follows m m'
    → ((a : A) → Follows (f a) (f' a))
    → Follows (m >>= f) (m' >>= f')
then-Follows panicked m' f f' h k = inl refl
then-Follows (err e) m' f f' (inl h) k = cc
then-Follows (ok a) m' f f' (inl h) k = cc
then-Follows (err e) m' f f' (inr h) k = inr (rw (← h) refl)
then-Follows (ok a) m' f f' (inr h) k = rw (← h) (k a)

module _ {E : Externals} (runtime : Runtime E) (first second : LibRepo E) where
  open runtime use {lock_vm, main_vm}

  ok_or-same :
      {A : Type 0} (o : Option A) (e : CallError E.Fe)
      → ok_or runtime first o e ≡ ok_or runtime second o e
  unfolding ok_or
  ok_or-same none e = refl
  ok_or-same (some a) e = refl

  armed-same :
      (vm : lock_vm.Vm) (cell : StateCell E) (witness : StateValue E.Fe)
      → armed runtime first vm cell witness ≡ armed runtime second vm cell witness
  unfolding armed put_witness Value.get
  armed-same vm cell StateValue.none = refl
  armed-same vm cell (StateValue.single a) = refl
  armed-same vm cell (StateValue.double a b) = refl
  armed-same vm cell (StateValue.triple a b c) = refl
  armed-same vm cell (StateValue.quadripple a b c d) = refl

  lock_result-Follows :
      (r r' : Partial (Status × lock_vm.Vm))
      → (r ≡ Partial.panicked) ⊎ (r ≡ r')
      → Follows (lock_result runtime first r) (lock_result runtime second r')
  unfolding lock_result
  lock_result-Follows Partial.panicked r' h = inl refl
  lock_result-Follows (done (Status.ok, vm)) r' (inl h) = cc
  lock_result-Follows (done (Status.fail, vm)) r' (inl h) = cc
  lock_result-Follows (done (Status.ok, vm)) r' (inr h) = inr (rw (← h) refl)
  lock_result-Follows (done (Status.fail, vm)) r' (inr h) = inr (rw (← h) refl)

  main_result-Follows :
      (operation : Operation E) (r r' : Partial (Status × main_vm.Vm))
      → (r ≡ Partial.panicked) ⊎ (r ≡ r')
      → Follows (main_result runtime first operation r) (main_result runtime second operation r')
  unfolding main_result failure
  main_result-Follows operation Partial.panicked r' h = inl refl
  main_result-Follows operation (done (Status.ok, vm)) r' (inl h) = cc
  main_result-Follows operation (done (Status.fail, vm)) r' (inl h) = cc
  main_result-Follows operation (done (Status.ok, vm)) r' (inr h) = inr (rw (← h) refl)
  main_result-Follows operation (done (Status.fail, vm)) r' (inr h) =
      elim (Option-cases (main_vm.get vm runtime.regs.e1)) [
        | inl unset ↦ inr (rw (← h, unset) refl)
        | inr (code, told) ↦ inr (rw (← h, told) refl)
      ]

  read_immutable-same :
      (memory : Memory E) (addrs : List CellAddr) (acc : List (StateValue E.Fe))
      → Follows
          (read_immutable runtime first memory addrs acc)
          (read_immutable runtime second memory addrs acc)
  unfolding read_immutable push
  read_immutable-same memory [] acc = inr refl
  read_immutable-same memory (addr ∷ rest) acc =
      then-Follows _ _ _ _ (inr (ok_or-same (memory.immutable addr) (no_immutable_input addr)))
        (λ value. read_immutable-same memory rest (push acc value))

  module _ (answers : Answers (resolver runtime first) (resolver runtime second))
      (lock_law : IsMonotone lock_vm) (main_law : IsMonotone main_vm) (memory : Memory E) where
    run_lock-Follows :
        (vm : lock_vm.Vm) (cell : StateCell E) (witness : StateValue E.Fe) (lk : Option E.LibSite)
        → Follows
            (run_lock runtime first vm cell witness lk)
            (run_lock runtime second vm cell witness lk)
    unfolding run_lock
    run_lock-Follows vm cell witness none = inr refl
    run_lock-Follows vm cell witness (some site) = rw (armed-same vm cell witness) (
        lock_result-Follows _ _
          (lock_law (armed runtime second vm cell witness) site tt _ _ answers))

    check_inputs-Follows :
        (ins : List (Input E.Fe)) (vm : lock_vm.Vm) (acc : List (StateValue E.Fe))
        → Follows
            (check_inputs runtime first memory ins vm acc)
            (check_inputs runtime second memory ins vm acc)
    unfolding check_inputs check_input push
    check_inputs-Follows [] vm acc = inr refl
    check_inputs-Follows (input ∷ rest) vm acc =
        then-Follows _ _ _ _
          (then-Follows _ _ _ _ (inr (ok_or-same (memory.destructible input.addr) _)) (λ cell.
            then-Follows _ _ _ _ (run_lock-Follows vm cell input.witness cell.lock)
              (λ vm'. inr refl)))
          (λ ((vm', acc') : lock_vm.Vm × List (StateValue E.Fe)).
            check_inputs-Follows rest vm' acc')

    verify-Follows :
        (codex : Codex E) (contract_id : ContractId) (operation : Operation E)
        → Follows
            (verify runtime first codex contract_id operation memory)
            (verify runtime second codex contract_id operation memory)
    unfolding verify context_of
    verify-Follows codex contract_id operation =
        elim (Bool-cases (contract_id_eq operation.contract_id contract_id)) [
          | inr other ↦ rw other (inr refl)
          | inl own ↦ rw own (
              then-Follows _ _ _ _ (check_inputs-Follows operation.destructible_in _ []) (λ values.
                then-Follows _ _ _ _ (read_immutable-same memory operation.immutable_in [])
                  (λ constants.
                    then-Follows _ _ _ _
                      (inr (ok_or-same (lookup codex.verifiers operation.call_id) _))
                      (λ site. main_result-Follows operation _ _ (main_law _ site _ _ _ answers)))))
        ]

module _ {E : Externals} (runtime : Runtime E) (sound : IsSound runtime) (first second : LibRepo E)
    (alike : ServeAlike runtime first second) (honest : ¬ Cheats runtime second) where
  resolver-Answers : Answers (resolver runtime first) (resolver runtime second)
  unfolding resolver checked
  resolver-Answers id = elim (Option-cases (first.get_lib id)) [
    | inl absent ↦ elim (Option-cases (second.get_lib id)) [
      | inl absent' ↦ inr (rw (absent, absent') refl)
      | inr (b, found') ↦ cc (alike.0 id, ap is_some absent, ap is_some found')
    ]
    | inr (a, found) ↦ elim (Bool-cases (runtime.lib_id_eq (runtime.lib_id a) id)) [
      | inr other ↦ inl (rw (found, other) refl)
      | inl same ↦ elim (Option-cases (second.get_lib id)) [
        | inl absent' ↦ cc (alike.0 id, ap is_some absent', ap is_some found)
        | inr (b, found') ↦ elim (Bool-cases (runtime.lib_id_eq (runtime.lib_id b) id)) [
          | inr other' ↦ absurd (honest (id, b, found', other'))
          | inl same' ↦
              let one : a ≡ b =
                alike.1 id a b found found' (sound _ _ same ∙ sym (sound _ _ same')) in
              inr (rw (found, found', same, same') (ap (λ lib. done (some lib)) one))
        ]
      ]
    ]
  ]

  -- With any repository the verification of an operation panics, or gives what it gives with one that
  -- answers every request with a library of the id asked for, an error or the operation with its id. The
  -- two have libraries for the same ids, and no two different libraries of the same id; the test of ids
  -- tells different ones apart, and a machine uses the resolver of libraries only by calling it.
  pub verify-repository :
      IsMonotone runtime.lock_vm
      → IsMonotone runtime.main_vm
      → (memory : Memory E) (codex : Codex E) (contract_id : ContractId) (operation : Operation E)
      → (verify runtime first codex contract_id operation memory ≡ panicked)
        ⊎ (verify runtime first codex contract_id operation memory
            ≡ verify runtime second codex contract_id operation memory)
  verify-repository lock_law main_law memory codex contract_id operation =
      verify-Follows runtime first second resolver-Answers lock_law main_law memory codex
        contract_id operation
