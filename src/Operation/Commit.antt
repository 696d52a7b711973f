-- ===== src/Operation/Commit.antt =====
-- Commitment ids (src/operation.rs, src/state.rs): what is fed to the commitment engine of
-- commit_verify, call by call. The hashes and the strict encodings are parameters.
pub mod Collision
pub mod Binding
use Prim.Native.String.{String}
use ultrasonic.Prelude.{ℕ, Bool, List, [], ◌∷◌, map, Option, none, some, Bytes}
use ultrasonic.Externals.{Externals}
use ultrasonic.Ids.{Opid, ContractId, opid_eq}
use ultrasonic.State.{StateCell, StateData}
use ultrasonic.State.Value.{StateValue}
use ultrasonic.Operation.{CellAddr, Input, Genesis, Operation, VerifiedOperation, to_operation}

-- `commit_to_serialized`, `commit_to_merkle` of the ids of the items, `commit_to_option` of `None`,
-- and `commit_to_hash` of the id of a value.
pub data Chunk : Type 0 where
  serialized : Bytes → Chunk
  merkle : List Bytes → Chunk
  option_none : Chunk
  hashed : Bytes → Chunk

-- `CommitEngine` to an id: under the tag of a `CommitmentId` of this code, as a `MerkleHash`, and as
-- a `StrictHash`.
pub record Hasher : Type 0 where
  pub commit : String → List Chunk → Bytes
  pub merkle_hash : List Chunk → Bytes
  pub strict_hash : List Chunk → Bytes

-- The derived `StrictEncode` of the types that are committed to as a whole.
pub record Encoders (E : Externals) : Type 0 where
  pub version : E.ReservedBytes 1 → Bytes
  pub contract_id : ContractId → Bytes
  pub call_id : ℕ → Bytes
  pub nonce : E.Fe → Bytes
  pub input : Input E.Fe → Bytes
  pub addr : CellAddr → Bytes
  pub cell : StateCell E → Bytes
  pub value : StateValue E.Fe → Bytes
  pub raw : Bytes → Bytes

-- `Opid::TAG`
abbrev pub opid_tag : String
opid_tag = "urn:ubideco:ultrasonic:operation#2024-11-14"

module _ {E : Externals} (hasher : Hasher) (encode : Encoders E) where
  -- The `match` on the raw data, whose id is that of a strict encoding.
  unfoldable pub raw_chunk : Option Bytes → Chunk
  raw_chunk none = option_none
  raw_chunk (some raw) = hashed (hasher.strict_hash (serialized (encode.raw raw) ∷ []))

  -- `CommitEncode for StateData`
  unfoldable pub data_commit_encode : StateData E.Fe → List Chunk
  unfolding raw_chunk
  data_commit_encode item = serialized (encode.value item.value) ∷ raw_chunk item.raw ∷ []

  -- The ids of the items, whose strategy is `strict` but for `StateData`.
  unfoldable pub input_id : Input E.Fe → Bytes
  input_id item = hasher.merkle_hash (serialized (encode.input item) ∷ [])

  unfoldable pub addr_id : CellAddr → Bytes
  addr_id item = hasher.merkle_hash (serialized (encode.addr item) ∷ [])

  unfoldable pub cell_id : StateCell E → Bytes
  cell_id item = hasher.merkle_hash (serialized (encode.cell item) ∷ [])

  unfoldable pub data_id : StateData E.Fe → Bytes
  unfolding data_commit_encode
  data_id item = hasher.merkle_hash (data_commit_encode item)

  -- `CommitEncode for Operation`
  unfoldable pub commit_encode : Operation E → List Chunk
  commit_encode operation =
      serialized (encode.version operation.version)
      ∷ serialized (encode.contract_id operation.contract_id)
      ∷ serialized (encode.call_id operation.call_id)
      ∷ serialized (encode.nonce operation.nonce)
      ∷ merkle (map input_id operation.destructible_in)
      ∷ merkle (map addr_id operation.immutable_in)
      ∷ merkle (map cell_id operation.destructible_out)
      ∷ merkle (map data_id operation.immutable_out)
      ∷ []

  -- `Operation::opid`
  unfoldable pub opid : Operation E → Opid
  opid operation = record { bytes = hasher.commit opid_tag (commit_encode operation) }

  -- `Genesis::opid`
  unfoldable pub genesis_opid : Genesis E → ContractId → Opid
  genesis_opid genesis contract_id = opid (to_operation genesis contract_id)

  -- `PartialEq for Operation`
  unfoldable pub operation_eq : Operation E → Operation E → Bool
  operation_eq a b = opid_eq (opid a) (opid b)

-- `PartialEq for VerifiedOperation`
unfoldable pub verified_eq : {E : Externals} → VerifiedOperation E → VerifiedOperation E → Bool
verified_eq a b = opid_eq a.cached b.cached
