-- ===== src/Operation/Order.antt =====
-- `Ord`, `PartialOrd` and `Hash` of operations and of verified operations (src/operation.rs).
use Prim.Native.Nat.{Ordering}
use Prim.Native.Nat.Ordering.{lt, eq}
use ultrasonic.Prelude.{
  ◌≡◌, ◌↔◌, ◌⊎◌, true, ap, Option, some, Bytes, bytes_cmp, reverse, IsTotalOrder, IsTotalOrder-on,
  bytes_cmp-IsTotalOrder,
}
use ultrasonic.Externals.{Externals}
use ultrasonic.Ids.{Opid, opid_eq, opid_eq_iff}
use ultrasonic.Operation.{Operation, VerifiedOperation}
use ultrasonic.Operation.Commit.{Hasher, Encoders, opid, operation_eq, verified_eq}
use ultrasonic.Operation.Commit.Collision.{unless_map}
use ultrasonic.Operation.Commit.Binding.{Clashing, Unambiguous, operation_eq_iff}

-- The derived `Ord` of an id.
abbrev opid_cmp : Opid → Opid → Ordering
opid_cmp a b = bytes_cmp a.bytes b.bytes

bytes_opid_eq : (a b : Opid) → (a.bytes ≡ b.bytes) ↔ (opid_eq a b ≡ true)
bytes_opid_eq a b =
    let (to, from) = opid_eq_iff a b in
    (λ e. from (λ i. record { bytes = e i }), λ t. ap (λ (x : Opid). x.bytes) (to t))

module _ {E : Externals} (hasher : Hasher) (encode : Encoders E) where
  -- `Ord`, `PartialOrd` and `Hash for Operation`; what is hashed is what is written to the hasher.
  unfoldable pub operation_cmp : Operation E → Operation E → Ordering
  operation_cmp a b = opid_cmp (opid hasher encode a) (opid hasher encode b)

  unfoldable pub operation_partial_cmp : Operation E → Operation E → Option Ordering
  unfolding operation_cmp
  operation_partial_cmp a b = some (operation_cmp a b)

  unfoldable pub operation_hash : Operation E → Bytes
  operation_hash a = (opid hasher encode a).bytes

  operation_cmp-IsTotalOrder :
      IsTotalOrder (λ a b. operation_eq hasher encode a b ≡ true) operation_cmp
  unfolding operation_cmp operation_hash operation_eq
  operation_cmp-IsTotalOrder =
      IsTotalOrder-on operation_hash bytes_cmp-IsTotalOrder
        (λ a b. bytes_opid_eq (opid hasher encode a) (opid hasher encode b))

module _ {E : Externals} (hasher : Hasher) {encode : Encoders E} (clear : Unambiguous encode) where
  -- The comparison of operations is a total order, which agrees with `==`: it is reversed with its
  -- arguments, it is transitive, and two operations tie just if the same bytes are hashed for them by
  -- `Hash`, and just if `==` holds of them. Unless two of the inputs hashed for their ids differ and
  -- hash alike, they tie just if they are equal. Encodings are unambiguous.
  pub operation_cmp_exact :
      (a b c : Operation E)
      → (operation_cmp hasher encode b a ≡ reverse (operation_cmp hasher encode a b))
        × (operation_cmp hasher encode a b ≡ lt
            → operation_cmp hasher encode b c ≡ lt
            → operation_cmp hasher encode a c ≡ lt)
        × ((operation_cmp hasher encode a b ≡ eq)
            ↔ (operation_hash hasher encode a ≡ operation_hash hasher encode b))
        × ((operation_cmp hasher encode a b ≡ eq) ↔ (operation_eq hasher encode a b ≡ true))
        × (((operation_cmp hasher encode a b ≡ eq) ↔ (a ≡ b)) ⊎ Clashing hasher encode a b)
  unfolding operation_hash operation_eq
  operation_cmp_exact a b c =
      let order = operation_cmp-IsTotalOrder hasher encode in
      let (tie, untie) = order.ties a b in
      let (into, back) = bytes_opid_eq (opid hasher encode a) (opid hasher encode b) in
      (
        order.swaps a b,
        order.chains a b c,
        ((λ h. back (tie h)), (λ e. untie (into e))),
        (tie, untie),
        unless_map (operation_eq_iff hasher clear a b)
            (λ h. ((λ t. h.0 (tie t)), (λ e. untie (h.1 e)))),
      )

module _ {E : Externals} where
  -- `Ord` and `PartialOrd for VerifiedOperation`
  unfoldable pub verified_cmp : VerifiedOperation E → VerifiedOperation E → Ordering
  verified_cmp a b = opid_cmp a.cached b.cached

  unfoldable pub verified_partial_cmp : VerifiedOperation E → VerifiedOperation E → Option Ordering
  unfolding verified_cmp
  verified_partial_cmp a b = some (verified_cmp a b)

  pub verified_cmp-IsTotalOrder :
      IsTotalOrder {K = VerifiedOperation E} (λ a b. verified_eq a b ≡ true) verified_cmp
  unfolding verified_cmp verified_eq
  verified_cmp-IsTotalOrder =
      IsTotalOrder-on (λ (v : VerifiedOperation E). v.cached.bytes) bytes_cmp-IsTotalOrder
        (λ a b. bytes_opid_eq a.cached b.cached)
