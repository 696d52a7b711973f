-- ===== src/Issue/Binding.antt =====
-- What a contract id binds (src/issue.rs): all of the issue but the codex id and the blanks of its
-- genesis, unless two of the inputs that are hashed for it collide.
use mathlib.Core.HLevel.{Discrete}
use native.Mathlib.Decide.{ℕ_discrete}
use ultrasonic.Prelude.{◌≡◌, ◌↔◌, ◌⊎◌, inl, ap, true, [], ◌∷◌, refl}
use ultrasonic.Externals.{Externals}
use ultrasonic.Ids.{ContractId, CodexId, contract_id_eq_iff, codex_id_eq_iff}
use ultrasonic.Operation.{to_operation}
use ultrasonic.Operation.Commit.{Hasher, Encoders, genesis_opid, opid, serialized}
use ultrasonic.Operation.Commit.Collision.{
  Feed, tagged, Clash, Clash-map, ◌>>=◌, unless_clash, unless_map, over, iff_unless,
}
use ultrasonic.Operation.Commit.Binding.{
  IsInjective, Unambiguous, SameForm, Fed, same_form, opid-injective, same_operation,
}
use ultrasonic.Codex.{Codex}
use ultrasonic.Issue.{
  Issue, IssueEncoders, codex_tag, contract_tag, all_ones, codex_id, codex_eq, issue_commit_encode,
  contract_id, issue_eq,
}

pub record IssueUnambiguous {E : Externals} (encode : IssueEncoders E) : Type 0 where
  pub version : IsInjective encode.version
  pub meta : IsInjective encode.meta
  pub codex : IsInjective encode.codex
  pub codex_id : IsInjective encode.codex_id
  pub opid : IsInjective encode.opid

-- Two issues that agree but for the codex id and the blanks of their genesis.
pub record SameIssue {E : Externals} (a b : Issue E) : Type 0 where
  pub version : a.version ≡ b.version
  pub meta : a.meta ≡ b.meta
  pub codex : a.codex ≡ b.codex
  pub genesis : SameForm a.genesis b.genesis

-- The input that is hashed for the id of a codex.
pub data FedCodex {E : Externals} (issue_encode : IssueEncoders E) (a : Codex E)
    : Feed → Type 0 where
  whole : FedCodex issue_encode a (tagged codex_tag (serialized (issue_encode.codex a) ∷ []))

-- The inputs that are hashed for the id of a contract.
pub data FedIssue {E : Externals} (hasher : Hasher) (encode : Encoders E)
    (issue_encode : IssueEncoders E) (a : Issue E) : Feed → Type 0 where
  whole :
      FedIssue hasher encode issue_encode a
        (tagged contract_tag (issue_commit_encode hasher encode issue_encode a))
  codex :
      {feed : Feed}
      → FedCodex issue_encode a.codex feed
      → FedIssue hasher encode issue_encode a feed
  genesis :
      {feed : Feed}
      → Fed hasher encode (to_operation a.genesis all_ones) feed
      → FedIssue hasher encode issue_encode a feed

contract_id-discrete : Discrete ContractId
contract_id-discrete = hlevel ℕ_discrete

codex_id-discrete : Discrete CodexId
codex_id-discrete = hlevel ℕ_discrete

module _ {E : Externals} (hasher : Hasher) (encode : Encoders E) {issue_encode : IssueEncoders E}
    (issue_clear : IssueUnambiguous issue_encode) where
  codex_id-injective :
      (a b : Codex E)
      → codex_id hasher encode issue_encode a ≡ codex_id hasher encode issue_encode b
      → (a ≡ b) ⊎ Clash hasher (FedCodex issue_encode a) (FedCodex issue_encode b)
  unfolding codex_id
  codex_id-injective a b e = do
    same ←
        unless_clash {hasher = hasher} (tagged codex_tag (serialized (issue_encode.codex a) ∷ []))
          (tagged codex_tag (serialized (issue_encode.codex b) ∷ [])) FedCodex.whole FedCodex.whole
          (ap (λ (c : CodexId). c.bytes) e)
    inl (issue_clear.codex a b (cc))

  -- The equality test of codexes, which compares their ids, is true just of equal codexes, unless their
  -- encodings differ and hash alike. Encodings are unambiguous.
  pub codex_eq_iff :
      (a b : Codex E)
      → ((codex_eq hasher encode issue_encode a b ≡ true) ↔ (a ≡ b))
        ⊎ Clash hasher (FedCodex issue_encode a) (FedCodex issue_encode b)
  unfolding codex_eq
  codex_eq_iff a b =
      let (to, from) =
        codex_id_eq_iff (codex_id hasher encode issue_encode a)
          (codex_id hasher encode issue_encode b) in
      unless_map
        (iff_unless (codex_id-discrete _ _) (codex_id-injective a b)
          (ap (codex_id hasher encode issue_encode)))
        (λ h. (λ t. h.0 (to t), λ e. from (h.1 e)))

module _ {E : Externals} (hasher : Hasher) {encode : Encoders E} {issue_encode : IssueEncoders E}
    (clear : Unambiguous encode) (issue_clear : IssueUnambiguous issue_encode) (a b : Issue E) where
  contract_id-injective :
      contract_id hasher encode issue_encode a ≡ contract_id hasher encode issue_encode b
      → SameIssue a b
        ⊎ Clash hasher
            (FedIssue hasher encode issue_encode a)
            (FedIssue hasher encode issue_encode b)
  unfolding contract_id issue_commit_encode genesis_opid
  contract_id-injective e = do
    same ←
        unless_clash {hasher = hasher}
          (tagged contract_tag (issue_commit_encode hasher encode issue_encode a))
          (tagged contract_tag (issue_commit_encode hasher encode issue_encode b)) FedIssue.whole
          FedIssue.whole (ap (λ (c : ContractId). c.bytes) e)
    same_codex ← over (Clash-map (λ f. FedIssue.codex) (λ f. FedIssue.codex)) (
        codex_id-injective hasher encode issue_clear a.codex b.codex
          (issue_clear.codex_id _ _ (cc)))
    formed ← over (Clash-map (λ f. FedIssue.genesis) (λ f. FedIssue.genesis)) (
        opid-injective hasher clear (to_operation a.genesis all_ones)
          (to_operation b.genesis all_ones) (issue_clear.opid _ _ (cc)))
    inl (record {
      version = issue_clear.version _ _ (cc);
      meta = issue_clear.meta _ _ (cc);
      codex = same_codex;
      genesis = (same_form a.genesis all_ones b.genesis all_ones formed).0;
    })

  same_contract_id :
      SameIssue a b
      → contract_id hasher encode issue_encode a ≡ contract_id hasher encode issue_encode b
  unfolding contract_id issue_commit_encode genesis_opid
  same_contract_id same =
      let operation : to_operation a.genesis all_ones ≡ to_operation b.genesis all_ones =
        same_operation a.genesis all_ones b.genesis all_ones (same.genesis, refl) in
      λ i. record {
        bytes = hasher.commit contract_tag (
            serialized (issue_encode.version (same.version i))
            ∷ serialized (issue_encode.meta (same.meta i))
            ∷ serialized
                (issue_encode.codex_id (codex_id hasher encode issue_encode (same.codex i)))
            ∷ serialized (issue_encode.opid (opid hasher encode (operation i)))
            ∷ []);
      }

  -- Two contract ids are equal just if the issues agree in version, metadata and codex, and in all of
  -- the genesis but its codex id and reserved blanks, unless two of the inputs hashed for the ids differ
  -- and hash alike. Encodings are unambiguous.
  pub contract_id_exact :
      ((contract_id hasher encode issue_encode a ≡ contract_id hasher encode issue_encode b)
        ↔ SameIssue a b)
      ⊎ Clash hasher (FedIssue hasher encode issue_encode a) (FedIssue hasher encode issue_encode b)
  contract_id_exact = iff_unless (contract_id-discrete _ _) contract_id-injective same_contract_id

  -- The equality test of issues, which compares contract ids, is true just of issues that agree in
  -- version, metadata and codex, and in all of the genesis but its codex id and reserved blanks, unless
  -- two of the inputs hashed for the ids differ and hash alike. Encodings are unambiguous.
  pub issue_eq_iff :
      ((issue_eq hasher encode issue_encode a b ≡ true) ↔ SameIssue a b)
      ⊎ Clash hasher (FedIssue hasher encode issue_encode a) (FedIssue hasher encode issue_encode b)
  unfolding issue_eq
  issue_eq_iff =
      let (to, from) =
        contract_id_eq_iff (contract_id hasher encode issue_encode a)
          (contract_id hasher encode issue_encode b) in
      unless_map contract_id_exact (λ h. (λ t. h.0 (to t), λ s. from (h.1 s)))
