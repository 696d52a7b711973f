-- ===== src/Issue.antt =====
-- src/issue.rs, and the codex id of src/codex.rs: the issue of a contract and its commitments.
pub mod Binding
pub mod Order
pub mod Consensus
pub mod Founding
use Prim.Native.String.{String}
use ultrasonic.Prelude.{ℕ, zero, suc, Bool, List, [], ◌∷◌, Bytes}
use ultrasonic.Externals.{Externals}
use ultrasonic.Ids.{Opid, ContractId, CodexId, contract_id_eq, codex_id_eq}
use ultrasonic.Operation.{Genesis}
use ultrasonic.Operation.Commit.{serialized, Chunk, Hasher, Encoders, genesis_opid}
use ultrasonic.Codex.{Codex}
use ultrasonic.Issue.Consensus.{Layer}

-- `ContractName`
pub data ContractName : Type 0 where
  unnamed : ContractName
  named : Bytes → ContractName

-- `timestamp` is the bit pattern of the `i64`.
pub record ContractMeta : Type 0 where
  pub testnet : Bool
  pub consensus : Layer
  pub timestamp : ℕ
  pub name : ContractName
  pub issuer : Bytes

pub record Issue (E : Externals) : Type 0 where
  pub version : E.ReservedBytes 1
  pub meta : ContractMeta
  pub codex : Codex E
  pub genesis : Genesis E

-- The derived `StrictEncode` of what an issue commits to.
pub record IssueEncoders (E : Externals) : Type 0 where
  pub version : E.ReservedBytes 1 → Bytes
  pub meta : ContractMeta → Bytes
  pub codex : Codex E → Bytes
  pub codex_id : CodexId → Bytes
  pub opid : Opid → Bytes

-- `CodexId::TAG` and `ContractId::TAG`
abbrev pub codex_tag : String
codex_tag = "urn:ubideco:sonic:codex#2025-05-15"

abbrev pub contract_tag : String
contract_tag = "urn:ubideco:sonic:contract#2024-11-16"

-- The bytes `[n; count]`.
abbrev repeat : ℕ → ℕ → Bytes
repeat n zero = []
repeat n (suc count) = n ∷ repeat n count

-- `ContractId::from_byte_array([0xFFu8; 32])`
abbrev pub all_ones : ContractId
all_ones = record { bytes = repeat 255 32 }

module _ {E : Externals} (hasher : Hasher) (encode : Encoders E)
    (issue_encode : IssueEncoders E) where
  -- `Codex::codex_id`, whose strategy of commitment is `strict`.
  unfoldable pub codex_id : Codex E → CodexId
  codex_id codex = record {
    bytes = hasher.commit codex_tag (serialized (issue_encode.codex codex) ∷ []);
  }

  -- `PartialEq for Codex`
  unfoldable pub codex_eq : Codex E → Codex E → Bool
  codex_eq a b = codex_id_eq (codex_id a) (codex_id b)

  -- `CommitEncode for Issue`
  unfoldable pub issue_commit_encode : Issue E → List Chunk
  issue_commit_encode issue =
      serialized (issue_encode.version issue.version)
      ∷ serialized (issue_encode.meta issue.meta)
      ∷ serialized (issue_encode.codex_id (codex_id issue.codex))
      ∷ serialized (issue_encode.opid (genesis_opid hasher encode issue.genesis all_ones))
      ∷ []

  -- `Issue::contract_id`
  unfoldable pub contract_id : Issue E → ContractId
  contract_id issue = record { bytes = hasher.commit contract_tag (issue_commit_encode issue) }

  -- `Issue::codex_id`
  unfoldable pub issue_codex_id : Issue E → CodexId
  issue_codex_id issue = codex_id issue.codex

  -- `Issue::genesis_opid`
  unfoldable pub issue_genesis_opid : Issue E → Opid
  issue_genesis_opid issue = genesis_opid hasher encode issue.genesis (contract_id issue)

  -- `PartialEq for Issue`
  unfoldable pub issue_eq : Issue E → Issue E → Bool
  issue_eq a b = contract_id_eq (contract_id a) (contract_id b)
