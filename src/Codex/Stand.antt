-- ===== src/Codex/Stand.antt =====
-- The test stand of src/codex.rs (`mod test`): a memory of maps, a repository of one library, and an
-- operation that a test changes before it is verified. What macros generate (`strict_dumb`, the
-- assembled scripts) and other crates give is a parameter.
pub mod Script
pub mod Steps
pub mod Body
pub mod Cases
pub mod Verdict
pub mod Lock
pub mod Refusals
use ultrasonic.Prelude.{
  ℕ, Option, none, some, List, [], ◌∷◌, Bytes, Bool, true, ◌&&◌, ◌==◌, if◌then◌else◌,
}
use ultrasonic.Externals.{Externals}
use ultrasonic.State.{StateCell}
use ultrasonic.State.Value.{StateValue}
use ultrasonic.State.Auth.{AuthToken}
use ultrasonic.Ids.{ContractId, opid_eq}
use ultrasonic.Operation.{CellAddr, CallId, Operation, VerifiedOperation}
use ultrasonic.Codex.{Codex, Memory, LibRepo, Runtime}
use ultrasonic.Codex.Outcome.{Outcome}
use ultrasonic.Codex.Verify.{verify}

-- The derived `PartialEq`.
unfoldable pub addr_eq : CellAddr → CellAddr → Bool
addr_eq a b = opid_eq a.opid b.opid && a.pos == b.pos

-- `HashMap::get` and `HashMap::insert`, the newest entry first.
unfoldable pub get {ℓ} : {V : Type ℓ} → List (CellAddr × V) → CellAddr → Option V
get [] addr = none
get ((key, value) ∷ rest) addr = if addr_eq key addr then some value else get rest addr

unfoldable pub insert {ℓ} : {V : Type ℓ} → List (CellAddr × V) → CellAddr → V → List (CellAddr × V)
insert entries addr value = (addr, value) ∷ entries

pub record DumbMemory (E : Externals) : Type 0 where
  pub destructible : List (CellAddr × StateCell E)
  pub immutable : List (CellAddr × StateValue E.Fe)

-- `impl Memory for DumbMemory`
unfoldable pub memory_of : {E : Externals} → DumbMemory E → Memory E
unfolding get
memory_of memory = record {
  destructible = λ addr. get memory.destructible addr;
  immutable = λ addr. get memory.immutable addr;
}

-- The instructions that the scripts are written in, and `Lib::assemble`, unwrapped.
pub record Assembler (E : Externals) : Type 1 where
  pub Instr : Type 0
  pub stop : Instr
  pub chk : Instr
  pub not_co : Instr
  pub clr : E.RegE → Instr
  pub put : E.RegE → E.Fe → Instr
  pub eq : E.RegE → E.RegE → Instr
  pub test : E.RegE → Instr
  pub assemble : List Instr → E.Lib

-- What the stand takes from elsewhere: `strict_dumb` of what it builds, the digests of the texts
-- `test` and `wrong`, `CoreConfig { halt, complexity_lim }` of its two fields,
-- `FIELD_ORDER_SECP`, `LibSite::new`, `fe256::from` and the assembler.
pub record Bench (E : Externals) : Type 1 where
  pub dumb_codex : Codex E
  pub dumb_operation : Operation E
  pub dumb_addr : CellAddr
  pub dumb_cell : StateCell E
  pub dumb_value : StateValue E.Fe
  pub dumb_token : AuthToken E.Fe
  pub digest_test : Bytes
  pub digest_wrong : Bytes
  pub core_config : Bool → Option ℕ → E.CoreConfig
  pub field_order_secp : ℕ
  pub lib_site : E.LibId → ℕ → E.LibSite
  pub fe256 : ℕ → E.Fe
  pub asm : Assembler E

-- The secret of the lock script.
abbrev pub secret : ℕ
secret = 48

-- What a test may change.
pub record Subject (E : Externals) : Type 0 where
  pub codex : Codex E
  pub operation : Operation E
  pub memory : DumbMemory E

module _ {E : Externals} (runtime : Runtime E) where
  open runtime use {lib_id, lib_id_eq}

  -- `impl LibRepo for Lib`
  unfoldable pub repo_of : E.Lib → LibRepo E
  repo_of lib = record { get_lib = λ id. if lib_id_eq id (lib_id lib) then some lib else none }

  -- `impl LibRepo for InvalidRepo`
  unfoldable pub invalid_repo : E.Lib → LibRepo E
  invalid_repo lib = record { get_lib = λ id. some lib }

  module _ (bench : Bench E) where
    open bench use {digest_test, core_config, field_order_secp, lib_site}
    open runtime use {regs}
    open regs use {ea, e1, e2, e3, e4, e5, e8}
    open bench use {asm, fe256}
    open asm use {Instr, stop, chk, not_co, clr, put, eq, test, assemble}

    abbrev pub lib_success : E.Lib
    lib_success = assemble (stop ∷ [])

    abbrev pub lib_failure_none : E.Lib
    lib_failure_none = assemble (clr e1 ∷ test e2 ∷ chk ∷ [])

    abbrev pub lib_failure_one : E.Lib
    lib_failure_one = assemble (put e1 (fe256 1) ∷ test e2 ∷ chk ∷ [])

    -- The lock script, which starts with the second instruction where it is to do anything.
    unfoldable pub lock_body : List Instr
    lock_body =
        put ea (fe256 secret)
        ∷ eq ea e1
        ∷ put e8 (fe256 1)
        ∷ chk
        ∷ eq ea e2
        ∷ put e8 (fe256 2)
        ∷ chk
        ∷ put e8 (fe256 3)
        ∷ test e3
        ∷ not_co
        ∷ chk
        ∷ test e4
        ∷ not_co
        ∷ chk
        ∷ test e5
        ∷ not_co
        ∷ chk
        ∷ []

    abbrev pub lib_lock : E.Lib
    lib_lock = assemble (stop ∷ lock_body)

    abbrev pub contract_id : ContractId
    contract_id = record { bytes = digest_test }

    -- The subject before a test changes it.
    unfoldable pub prepared : E.LibId → Subject E
    prepared id = record {
      codex = record bench.dumb_codex {
        field_order = field_order_secp;
        verification_config = core_config true (some 10000000);
        input_config = core_config true (some 10000000);
        verifiers = (0, lib_site id 0) ∷ [];
      };
      operation = record bench.dumb_operation { contract_id = contract_id; call_id = 0 };
      memory = record { destructible = []; immutable = [] };
    }

    -- `test_stand_repo`, `test_stand_script` and `test_stand`, whose `unwrap` panics on an error with the
    -- error.
    unfoldable pub test_stand_repo :
        E.LibId → LibRepo E → (Subject E → Subject E) → Outcome E.Fe (VerifiedOperation E)
    unfolding prepared
    test_stand_repo id repo modify =
        let subject = modify (prepared id) in
        verify runtime repo subject.codex contract_id subject.operation (memory_of subject.memory)

    unfoldable pub test_stand_script :
        E.Lib → (Subject E → Subject E) → Outcome E.Fe (VerifiedOperation E)
    unfolding test_stand_repo
    test_stand_script lib modify = test_stand_repo (lib_id lib) (repo_of lib) modify

    unfoldable pub test_stand : (Subject E → Subject E) → Outcome E.Fe (VerifiedOperation E)
    unfolding test_stand_script
    test_stand modify = test_stand_script lib_success modify
