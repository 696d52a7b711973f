-- ===== src/Issue/Order.antt =====
-- `Ord`, `PartialOrd` and `Hash` of codexes (src/codex.rs), over their ids (src/issue.rs).
use Prim.Native.Nat.{Ordering}
use ultrasonic.Prelude.{
  ◌≡◌, ◌↔◌, true, ap, Option, some, Bytes, bytes_cmp, IsTotalOrder, IsTotalOrder-on,
  bytes_cmp-IsTotalOrder,
}
use ultrasonic.Externals.{Externals}
use ultrasonic.Ids.{CodexId, codex_id_eq, codex_id_eq_iff}
use ultrasonic.Operation.Commit.{Hasher, Encoders}
use ultrasonic.Codex.{Codex}
use ultrasonic.Issue.{IssueEncoders, codex_id, codex_eq}

-- The derived `Ord` of an id.
abbrev codex_id_cmp : CodexId → CodexId → Ordering
codex_id_cmp a b = bytes_cmp a.bytes b.bytes

bytes-codex_id_eq : (a b : CodexId) → (a.bytes ≡ b.bytes) ↔ (codex_id_eq a b ≡ true)
bytes-codex_id_eq a b =
    let (to, from) = codex_id_eq_iff a b in
    (λ e. from (λ i. record { bytes = e i }), λ t. ap (λ (x : CodexId). x.bytes) (to t))

module _ {E : Externals} (hasher : Hasher) (encode : Encoders E)
    (issue_encode : IssueEncoders E) where
  -- `Ord`, `PartialOrd` and `Hash for Codex`; what is hashed is what is written to the hasher.
  unfoldable pub codex_cmp : Codex E → Codex E → Ordering
  codex_cmp a b =
      codex_id_cmp (codex_id hasher encode issue_encode a) (codex_id hasher encode issue_encode b)

  unfoldable pub codex_partial_cmp : Codex E → Codex E → Option Ordering
  unfolding codex_cmp
  codex_partial_cmp a b = some (codex_cmp a b)

  unfoldable pub codex_hash : Codex E → Bytes
  codex_hash a = (codex_id hasher encode issue_encode a).bytes

  -- The comparison of codexes is a total order, whose ties are the codexes that `==` holds of, and
  -- `==` holds of the codexes that the same bytes are hashed for.
  pub codex_cmp-IsTotalOrder :
      IsTotalOrder (λ a b. codex_eq hasher encode issue_encode a b ≡ true) codex_cmp
      × ((a b : Codex E)
          → (codex_hash a ≡ codex_hash b) ↔ (codex_eq hasher encode issue_encode a b ≡ true))
  unfolding codex_cmp codex_hash codex_eq
  codex_cmp-IsTotalOrder =
      let same = λ (a b : Codex E).
        bytes-codex_id_eq (codex_id hasher encode issue_encode a)
          (codex_id hasher encode issue_encode b) in
      (IsTotalOrder-on codex_hash bytes_cmp-IsTotalOrder same, same)
