-- ===== src/Operation.antt =====
-- src/operation.rs: operations, genesis and cell addresses. A `SmallVec` is a list.
pub mod Address
pub mod Text
pub mod Commit
pub mod Order
use ultrasonic.Prelude.{ℕ, List, []}
use ultrasonic.Externals.{Externals}
use ultrasonic.Ids.{Opid, ContractId, CodexId}
use ultrasonic.State.{StateCell, StateData}
use ultrasonic.State.Value.{StateValue}

-- `pos` is a `u16`.
pub record CellAddr : Type 0 where
  pub opid : Opid
  pub pos : ℕ

-- `CellAddr::new`
unfoldable pub new : Opid → ℕ → CellAddr
new opid pos = record { opid = opid; pos = pos }

pub record Input (Fe : Type 0) : Type 0 where
  pub addr : CellAddr
  pub witness : StateValue Fe

-- `CallId` is a `u16`.
abbrev pub CallId : Type 0
CallId = ℕ

pub record Genesis (E : Externals) : Type 0 where
  pub version : E.ReservedBytes 1
  pub codex_id : CodexId
  pub call_id : CallId
  pub nonce : E.Fe
  pub blank1 : E.ReservedBytes 2
  pub blank2 : E.ReservedBytes 2
  pub destructible_out : List (StateCell E)
  pub immutable_out : List (StateData E.Fe)

pub record Operation (E : Externals) : Type 0 where
  pub version : E.ReservedBytes 1
  pub contract_id : ContractId
  pub call_id : CallId
  pub nonce : E.Fe
  pub destructible_in : List (Input E.Fe)
  pub immutable_in : List CellAddr
  pub destructible_out : List (StateCell E)
  pub immutable_out : List (StateData E.Fe)

-- The cached id and the operation.
pub record VerifiedOperation (E : Externals) : Type 0 where
  pub cached : Opid
  pub operation : Operation E

module _ {E : Externals} where
  -- `Genesis::to_operation`
  unfoldable pub to_operation : Genesis E → ContractId → Operation E
  to_operation genesis contract_id = record {
    version = genesis.version;
    contract_id = contract_id;
    call_id = genesis.call_id;
    nonce = genesis.nonce;
    destructible_in = [];
    immutable_in = [];
    destructible_out = genesis.destructible_out;
    immutable_out = genesis.immutable_out;
  }

  -- `VerifiedOperation::new_unchecked`, `opid`, `as_operation` and `into_operation`
  unfoldable pub new_unchecked : Opid → Operation E → VerifiedOperation E
  new_unchecked opid operation = record { cached = opid; operation = operation }

  unfoldable pub verified_opid : VerifiedOperation E → Opid
  verified_opid verified = verified.cached

  unfoldable pub as_operation : VerifiedOperation E → Operation E
  as_operation verified = verified.operation

  unfoldable pub into_operation : VerifiedOperation E → Operation E
  into_operation verified = verified.operation
