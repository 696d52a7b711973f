-- ===== src/Codex.antt =====
-- src/codex.rs: the verification of a contract operation. The virtual machines, the state of the
-- contract and the repository of libraries are parameters.
pub mod Outcome
pub mod Verify
pub mod Spec
pub mod Locks
pub mod Inputs
pub mod Reads
pub mod Phases
pub mod Correct
pub mod Panics
pub mod Frame
pub mod Equality
pub mod Decides
pub mod Context
pub mod Repository
pub mod Permute
pub mod Armed
pub mod Growth
pub mod Opened
pub mod Asserts
pub mod Script
pub mod Stand
use ultrasonic.Prelude.{ℕ, Option, List, Bytes, Partial, Bool}
use ultrasonic.Externals.{Externals, Registers, Status}
use ultrasonic.State.{StateCell}
use ultrasonic.State.Value.{StateValue}
use ultrasonic.Operation.{CellAddr, CallId, Operation}
use ultrasonic.Ids.{Opid}
use ultrasonic.Isa.Context.{VmContext}

-- A confined text is its bytes, `timestamp` the bit pattern of its `i64`, and `verifiers` the
-- entries of the map.
pub record Codex (E : Externals) : Type 0 where
  pub version : E.ReservedBytes 1
  pub name : Bytes
  pub developer : Bytes
  pub timestamp : ℕ
  pub field_order : ℕ
  pub input_config : E.CoreConfig
  pub verification_config : E.CoreConfig
  pub verifiers : List (CallId × E.LibSite)

-- `trait Memory`
pub record Memory (E : Externals) : Type 0 where
  pub destructible : CellAddr → Option (StateCell E)
  pub immutable : CellAddr → Option (StateValue E.Fe)

-- `trait LibRepo`
pub record LibRepo (E : Externals) : Type 0 where
  pub get_lib : E.LibId → Option E.Lib

-- `Vm` of zk-aluvm for one instruction set, whose scripts run in a context `Context`: `Vm::with`,
-- `core.cx.set` and `core.cx.get`, `Vm::exec` with a resolver of libraries that may panic, and
-- `Vm::reset`.
pub record VmApi (E : Externals) (Context : Type 0) : Type 1 where
  pub Vm : Type 0
  pub with_config : E.CoreConfig → ℕ → Vm
  pub set : Vm → E.RegE → E.Fe → Vm
  pub get : Vm → E.RegE → Option E.Fe
  pub exec : Vm → E.LibSite → Context → (E.LibId → Partial (Option E.Lib)) → Partial (Status × Vm)
  pub reset : Vm → Vm

-- All that `Codex::verify` calls: the machine for lock scripts (`aluvm::gfa::Instr`), that for
-- verifiers (`Instr`), the register names, the ids of libraries, and the id of an operation.
pub record Runtime (E : Externals) : Type 1 where
  pub lock_vm : VmApi E (Unit {0})
  pub main_vm : VmApi E (VmContext E)
  pub regs : Registers E.RegE
  pub lib_id : E.Lib → E.LibId
  pub lib_id_eq : E.LibId → E.LibId → Bool
  pub opid : Operation E → Opid
