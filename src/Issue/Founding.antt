-- ===== src/Issue/Founding.antt =====
-- The verification of the genesis of an issue under the issue's own codex (src/issue.rs, src/codex.rs).
use ultrasonic.Prelude.{◌≡◌, ◌↔◌, ◌⊎◌, refl, sym, ap, ◌∙◌, none, some, [], done, inl, inr}
use ultrasonic.Externals.{Externals, Status}
use ultrasonic.Ids.{ContractId, contract_id_eq_iff}
use ultrasonic.Operation.{Operation, VerifiedOperation, to_operation, new_unchecked}
use ultrasonic.Operation.Commit.{Hasher, Encoders, opid, genesis_opid}
use ultrasonic.Isa.Context.{VmContext}
use ultrasonic.Codex.{Memory, LibRepo, Runtime}
use ultrasonic.Codex.Outcome.{Outcome, ok, err, >>=-eq-ok, >>=-eq-err, CallError, not_found}
use ultrasonic.Codex.Verify.{
  verify, check_inputs, read_immutable, lookup, ok_or, main_result, context_of, failure, resolver,
}
use ultrasonic.Codex.Phases.{call, verify-own, main_result-ok, main_result-err}
use ultrasonic.Codex.Inputs.{ok_or-ok, ok_or-err}
use ultrasonic.Issue.{Issue, IssueEncoders, contract_id, issue_genesis_opid}

module _ {E : Externals} (runtime : Runtime E) (repo : LibRepo E) (hasher : Hasher)
    (encode : Encoders E) (issue_encode : IssueEncoders E) (issue : Issue E) where
  open runtime use {main_vm, regs}

  abbrev own_id : ContractId
  own_id = contract_id hasher encode issue_encode issue

  -- The first operation of the contract.
  abbrev pub first_operation : Operation E
  first_operation = to_operation issue.genesis own_id

  -- The outputs of the genesis, with no inputs.
  abbrev pub genesis_context : VmContext E
  genesis_context = record {
    destructible_input = [];
    immutable_input = [];
    destructible_output = issue.genesis.destructible_out;
    immutable_output = issue.genesis.immutable_out;
  }

  -- The codex has a verifier for the call of the genesis, which ends so on its outputs alone.
  abbrev pub Ends : E.LibSite → Status → main_vm.Vm → Type 0
  Ends site status vm =
      (lookup issue.codex.verifiers issue.genesis.call_id ≡ some site)
      × (main_vm.exec (main_vm.with_config issue.codex.verification_config issue.codex.field_order)
            site genesis_context (resolver runtime repo)
          ≡ done (status, vm))

  abbrev pub IsAccepted : VerifiedOperation E → Type 0
  IsAccepted v =
      ((site : E.LibSite) × (vm : main_vm.Vm) × Ends site Status.ok vm)
      × (v ≡ new_unchecked (issue_genesis_opid hasher encode issue_encode issue) first_operation)

  abbrev pub IsRefused : CallError E.Fe → Type 0
  IsRefused e =
      ((lookup issue.codex.verifiers issue.genesis.call_id ≡ none)
        × (e ≡ not_found issue.genesis.call_id))
      ⊎ ((site : E.LibSite) × (vm : main_vm.Vm) × Ends site Status.fail vm
          × (e ≡ failure runtime repo (main_vm.get vm regs.e1)))

  module _ (memory : Memory E) where
    abbrev pub result : Outcome E.Fe (VerifiedOperation E)
    result = verify runtime repo issue.codex own_id first_operation memory

    verify-call : result ≡ call runtime repo issue.codex memory own_id first_operation [] []
    unfolding to_operation check_inputs read_immutable
    verify-call =
        verify-own runtime repo issue.codex memory own_id first_operation
          ((contract_id_eq_iff _ _).1 refl)

    result-IsRefused : {e : CallError E.Fe} → result ≡ err e → IsRefused e
    unfolding to_operation context_of
    result-IsRefused {e} h =
        let called : call runtime repo issue.codex memory own_id first_operation [] [] ≡ err e =
          sym verify-call ∙ h in
        let split = >>=-eq-err _ _ called in
        elim split [
          | inl absent ↦ inl (ok_or-err runtime repo _ absent)
          | inr (site, found, h₁) ↦
              let (vm, runs, code) =
                main_result-err runtime repo issue.codex memory own_id first_operation _ h₁ in
              inr (site, vm, (ok_or-ok runtime repo _ _ found, runs), code)
        ]

    IsRefused-result : {e : CallError E.Fe} → IsRefused e → result ≡ err e
    unfolding to_operation context_of ok_or main_result
    IsRefused-result (inl (absent, code)) = verify-call ∙ rw absent (ap err (sym code))
    IsRefused-result (inr (site, vm, (found, runs), code)) =
        verify-call ∙ rw found (rw runs (ap err (sym code)))

    module _
        (agrees : (operation : Operation E)
          → runtime.opid operation ≡ opid hasher encode operation) where
      same_id : runtime.opid first_operation ≡ issue_genesis_opid hasher encode issue_encode issue
      unfolding issue_genesis_opid genesis_opid
      same_id = agrees first_operation

      result-IsAccepted : {v : VerifiedOperation E} → result ≡ ok v → IsAccepted v
      unfolding to_operation context_of
      result-IsAccepted h =
          let (site, found, h₁) = >>=-eq-ok _ _ (sym verify-call ∙ h) in
          let (vm, runs, made) =
            main_result-ok runtime repo issue.codex memory own_id first_operation _ h₁ in
          (
            (site, vm, (ok_or-ok runtime repo _ _ found, runs)),
            made ∙ ap (λ id. new_unchecked id first_operation) same_id,
          )

      IsAccepted-result : {v : VerifiedOperation E} → IsAccepted v → result ≡ ok v
      unfolding to_operation context_of ok_or main_result
      IsAccepted-result ((site, vm, (found, runs)), made) =
          verify-call
          ∙ rw found (
              rw runs (ap (λ id. ok (new_unchecked id first_operation)) same_id ∙ ap ok (sym made)))

      -- The genesis of an issue is verified, as an operation of the contract under the issue's codex,
      -- just if the codex has a verifier for its call that ends with success on the outputs of the
      -- genesis and no inputs, and what is returned is then the operation under the genesis id of the
      -- issue. It is refused just with the error of a call without a verifier or of the verifier that
      -- failed. Neither depends on the memory. The runtime gives operations their ids.
      pub verify-genesis :
          ((v : VerifiedOperation E) → (result ≡ ok v) ↔ IsAccepted v)
          × ((e : CallError E.Fe) → (result ≡ err e) ↔ IsRefused e)
      verify-genesis =
          ((λ v. (result-IsAccepted, IsAccepted-result)), λ e. (result-IsRefused, IsRefused-result))
