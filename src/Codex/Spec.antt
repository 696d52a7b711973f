-- ===== src/Codex/Spec.antt =====
-- What it means that an operation is valid, said without the order of the code in src/codex.rs: each
-- input for itself, each lock on a machine of its own.
use ultrasonic.Prelude.{ℕ, ◌≡◌, ◌≢◌, Option, none, some, List, [], ◌∷◌, Partial, done}
use ultrasonic.Externals.{Externals, Status}
use ultrasonic.State.{StateCell}
use ultrasonic.State.Value.{StateValue}
use ultrasonic.Ids.{ContractId}
use ultrasonic.Operation.{CellAddr, Input, Operation}
use ultrasonic.Codex.{Codex, Memory, LibRepo, VmApi, Runtime}
use ultrasonic.Codex.Outcome.{
  CallError, wrong_contract, not_found, no_read_once_input, no_immutable_input, lock,
}
use ultrasonic.Codex.Verify.{armed, resolver, lookup, context_of, failure}

-- What zk-aluvm documents of a machine: it keeps the configuration that it was made with, and a reset
-- brings it back to what it was when it was made.
pub record ResetLaws {E : Externals} {Context : Type 0} (api : VmApi E Context) : Type 0 where
  pub config_of : api.Vm → E.CoreConfig
  pub order_of : api.Vm → ℕ
  pub config_of-with_config : (c : E.CoreConfig) (n : ℕ) → config_of (api.with_config c n) ≡ c
  pub order_of-with_config : (c : E.CoreConfig) (n : ℕ) → order_of (api.with_config c n) ≡ n
  pub config_of-set :
      (vm : api.Vm) (r : E.RegE) (v : E.Fe) → config_of (api.set vm r v) ≡ config_of vm
  pub order_of-set : (vm : api.Vm) (r : E.RegE) (v : E.Fe) → order_of (api.set vm r v) ≡ order_of vm
  pub exec-keeps :
      (vm : api.Vm) (site : E.LibSite) (context : Context)
      (resolve : E.LibId → Partial (Option E.Lib)) (status : Status) (vm' : api.Vm)
      → api.exec vm site context resolve ≡ done (status, vm')
      → (config_of vm' ≡ config_of vm) × (order_of vm' ≡ order_of vm)
  pub reset_lem : (vm : api.Vm) → api.reset vm ≡ api.with_config (config_of vm) (order_of vm)

module _ {E : Externals} (runtime : Runtime E) (repo : LibRepo E) (codex : Codex E) where
  open runtime use {lock_vm, main_vm, regs}

  abbrev pub fresh : lock_vm.Vm
  fresh = lock_vm.with_config codex.input_config codex.field_order

  -- How a lock script ends, run for one input on a fresh machine.
  abbrev pub Ends : StateCell E → StateValue E.Fe → E.LibSite → Status → lock_vm.Vm → Type 0
  Ends cell witness site status vm =
      lock_vm.exec (armed runtime repo fresh cell witness) site tt (resolver runtime repo)
      ≡ done (status, vm)

  abbrev pub LockHolds : StateCell E → StateValue E.Fe → Option E.LibSite → Type 0
  LockHolds cell witness none = Unit
  LockHolds cell witness (some site) = (vm : lock_vm.Vm) × Ends cell witness site Status.ok vm

  module _ (memory : Memory E) where
    -- The input names a cell of the memory with that data, whose lock it opens.
    abbrev pub Unlocks : Input E.Fe → StateValue E.Fe → Type 0
    Unlocks input value =
        (cell : StateCell E) × (memory.destructible input.addr ≡ some cell)
        × (cell.«data» ≡ value)
        × LockHolds cell input.witness cell.lock

    abbrev pub Accepts : List (Input E.Fe) → List (StateValue E.Fe) → Type 0
    Accepts [] [] = Unit
    Accepts (input ∷ rest) (value ∷ values) = Unlocks input value × Accepts rest values
    Accepts _ _ = ⊥

    -- What is wrong with one input.
    pub data Blocks (input : Input E.Fe) (e : CallError E.Fe) : Type 0 where
      missing :
          memory.destructible input.addr ≡ none → e ≡ no_read_once_input input.addr → Blocks input e
      locked :
          (cell : StateCell E) (site : E.LibSite) (vm : lock_vm.Vm)
          → memory.destructible input.addr ≡ some cell
          → cell.lock ≡ some site
          → Ends cell input.witness site Status.fail vm
          → e ≡ lock (lock_vm.get vm regs.e8)
          → Blocks input e

    -- The first of the inputs that is blocked, and how.
    pub data Stops : List (Input E.Fe) → CallError E.Fe → Type 0 where
      here :
          {input : Input E.Fe} {rest : List (Input E.Fe)} {e : CallError E.Fe}
          → Blocks input e
          → Stops (input ∷ rest) e
      there :
          {input : Input E.Fe} {rest : List (Input E.Fe)} {e : CallError E.Fe}
          (value : StateValue E.Fe)
          → Unlocks input value
          → Stops rest e
          → Stops (input ∷ rest) e

    abbrev pub Reads : List CellAddr → List (StateValue E.Fe) → Type 0
    Reads [] [] = Unit
    Reads (addr ∷ rest) (value ∷ values) = (memory.immutable addr ≡ some value) × Reads rest values
    Reads _ _ = ⊥

    -- The first of the addresses that the memory does not have.
    pub data Unread : List CellAddr → CellAddr → Type 0 where
      here :
          {addr : CellAddr} {rest : List CellAddr}
          → memory.immutable addr ≡ none
          → Unread (addr ∷ rest) addr
      there :
          {addr missed : CellAddr} {rest : List CellAddr} (value : StateValue E.Fe)
          → memory.immutable addr ≡ some value
          → Unread rest missed
          → Unread (addr ∷ rest) missed

    -- How the verifier of the codex ends, on the context of the operation and of what was read.
    abbrev pub Runs :
        Operation E
        → List (StateValue E.Fe)
        → List (StateValue E.Fe)
        → E.LibSite
        → Status
        → main_vm.Vm
        → Type 0
    Runs operation values constants site status vm =
        main_vm.exec (main_vm.with_config codex.verification_config codex.field_order) site
          (context_of runtime repo operation values constants) (resolver runtime repo)
        ≡ done (status, vm)

    -- The operation is one of the contract, and everything that it reads is there and unlocked.
    abbrev pub Readable :
        ContractId → Operation E → List (StateValue E.Fe) → List (StateValue E.Fe) → Type 0
    Readable contract_id operation values constants =
        (operation.contract_id ≡ contract_id)
        × Accepts operation.destructible_in values
        × Reads operation.immutable_in constants

    -- A valid operation of the contract.
    abbrev pub IsValid : ContractId → Operation E → Type 0
    IsValid contract_id operation =
        (values : List (StateValue E.Fe)) × (constants : List (StateValue E.Fe))
        × (site : E.LibSite) × (vm : main_vm.Vm) × Readable contract_id operation values constants
        × (lookup codex.verifiers operation.call_id ≡ some site)
        × Runs operation values constants site Status.ok vm

    -- What is wrong with an invalid operation: the first check that it does not pass.
    pub data Fails (contract_id : ContractId) (operation : Operation E) (e : CallError E.Fe)
        : Type 0 where
      foreign :
          operation.contract_id ≢ contract_id
          → e ≡ wrong_contract contract_id operation.contract_id
          → Fails contract_id operation e
      blocked :
          operation.contract_id ≡ contract_id
          → Stops operation.destructible_in e
          → Fails contract_id operation e
      unread :
          (values : List (StateValue E.Fe)) (addr : CellAddr)
          → operation.contract_id ≡ contract_id
          → Accepts operation.destructible_in values
          → Unread operation.immutable_in addr
          → e ≡ no_immutable_input addr
          → Fails contract_id operation e
      uncallable :
          (values constants : List (StateValue E.Fe))
          → Readable contract_id operation values constants
          → lookup codex.verifiers operation.call_id ≡ none
          → e ≡ not_found operation.call_id
          → Fails contract_id operation e
      rejected :
          (values constants : List (StateValue E.Fe)) (site : E.LibSite) (vm : main_vm.Vm)
          → Readable contract_id operation values constants
          → lookup codex.verifiers operation.call_id ≡ some site
          → Runs operation values constants site Status.fail vm
          → e ≡ failure runtime repo (main_vm.get vm regs.e1)
          → Fails contract_id operation e
