-- ===== src/Codex/Equality.antt =====
-- Comparing what `Codex::verify` returns (src/codex.rs, src/operation.rs).
use ultrasonic.Prelude.{◌≡◌, ◌↔◌, ◌⊎◌, sym, ap, ap₂, ◌∙◌, true}
use ultrasonic.Externals.{Externals}
use ultrasonic.Ids.{ContractId, opid_eq}
use ultrasonic.Operation.{Operation, VerifiedOperation, new_unchecked}
use ultrasonic.Operation.Commit.{Hasher, Encoders, opid, operation_eq, verified_eq}
use ultrasonic.Operation.Commit.Collision.{unless_map}
use ultrasonic.Operation.Commit.Binding.{Clashing, Unambiguous, operation_eq_iff}
use ultrasonic.Codex.{Codex, Memory, LibRepo, Runtime}
use ultrasonic.Codex.Outcome.{ok}
use ultrasonic.Codex.Verify.{verify}
use ultrasonic.Codex.Spec.{ResetLaws}
use ultrasonic.Codex.Correct.{IsConfined, verify-ok_iff}

module _ {E : Externals} (runtime : Runtime E) (repo : LibRepo E) (codex : Codex E)
    (laws : ResetLaws runtime.lock_vm) (memory : Memory E) (contract_id : ContractId) where
  returned :
      (operation : Operation E) (v : VerifiedOperation E)
      → IsConfined operation
      → verify runtime repo codex contract_id operation memory ≡ ok v
      → v ≡ new_unchecked (runtime.opid operation) operation
  returned operation v small h =
      ((verify-ok_iff runtime repo codex laws memory contract_id operation v small).0 h).1

  -- Verified operations, which compare by the ids kept with them, compare equal just if the operations
  -- that were verified are equal, unless two of the inputs hashed for them differ and hash alike.
  -- Their vectors are within the bounds of their types, encodings are unambiguous, the runtime gives
  -- operations their ids, and a reset of the machine for locks makes it as it was made.
  pub verified_eq_iff :
      (hasher : Hasher) {encode : Encoders E} (clear : Unambiguous encode)
      (ids : (o : Operation E) → runtime.opid o ≡ opid hasher encode o) (a b : Operation E)
      (v w : VerifiedOperation E)
      → IsConfined a
      → IsConfined b
      → verify runtime repo codex contract_id a memory ≡ ok v
      → verify runtime repo codex contract_id b memory ≡ ok w
      → ((verified_eq v w ≡ true) ↔ (a ≡ b)) ⊎ Clashing hasher encode a b
  unfolding verified_eq operation_eq new_unchecked
  verified_eq_iff hasher {encode} clear ids a b v w small_a small_b ha hb =
      let va : v.cached ≡ opid hasher encode a =
        ap (λ (x : VerifiedOperation E). x.cached) (returned a v small_a ha) ∙ ids a in
      let wb : w.cached ≡ opid hasher encode b =
        ap (λ (x : VerifiedOperation E). x.cached) (returned b w small_b hb) ∙ ids b in
      let same : verified_eq v w ≡ operation_eq hasher encode a b = ap₂ opid_eq va wb in
      unless_map (operation_eq_iff hasher clear a b)
        (λ h. (λ t. h.0 (sym same ∙ t), λ e. same ∙ h.1 e))
