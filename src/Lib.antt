-- ===== src/Lib.antt =====
-- UltraSONIC: the verification of contract operations, the data that operations are made of, and
-- the instruction set in which verifiers are written.
--
-- A contract is issued under a codex, which has a verifier for each call. An operation names the
-- cells that it destroys and those that it reads, with a witness for each lock, and lists the cells
-- that it makes. `Codex::verify` looks every input up in the memory of the contract, runs the lock
-- of each destructible input, and then runs the verifier, whose script reads inputs and outputs by
-- instructions that move four iterators.
--
-- Prelude, with its parts in Prelude/: tests on numbers, lists, byte strings, `Partial` and
--   `Result`.
-- Externals: the types, registers and field elements of other crates, as parameters.
-- State (src/state.rs): cells. State/Value is `StateValue`; State/Auth is `AuthToken`, where
--   `debug` tells builds with assertions from others; State/RawData is the text of `RawData`, and
--   State/Auth/Order has the order of tokens.
-- Ids: `Opid`, `ContractId` and `CodexId` as bytes.
-- Operation (src/operation.rs): `CellAddr`, `Input`, `Genesis`, `Operation` and
--   `VerifiedOperation`. Operation/Address is the 34-byte form of an address, and Operation/Text
--   its text, with the texts that are read as addresses in Operation/Text/Exact. Operation/Commit
--   is what goes into the commitment engine and the ids that come of it; Operation/Commit/Binding
--   has what an id binds, by Operation/Commit/Collision, where the inputs of hashes and their
--   collisions are. Operation/Order is `Ord` and `Hash`.
-- Isa (src/isa): Instr is instr.rs, Core is core.rs, Microcode is microcode.rs, Context and Exec
--   are exec.rs, with `impl Instruction for UsonicInstr` in Exec/Usonic, and Bytecode is
--   bytecode.rs, with `impl Bytecode for UsonicInstr` in Bytecode/Usonic. Masm is masm.rs. Machine
--   is the interface to zk-aluvm. An instruction maps a core to the core after it; Exec/Steps has
--   the abstract machine that USONIC instructions implement, and Exec/Run any sequence of
--   instructions, with Exec/Loads and Exec/Interleaved on the cells that such a sequence shows,
--   Exec/Drain on loops over all cells, and Exec/Debug on builds that check overflow. Core/Text is
--   the debug output of the core.
-- Codex (src/codex.rs): the codex and the interfaces to machines, memory and libraries.
--   Codex/Outcome is `CallError` and results of code that may panic; Codex/Verify is
--   `Codex::verify`, one definition for each loop and its body; Codex/Spec says what a valid
--   operation is and what each error means, without the order of the code; Codex/Locks,
--   Codex/Inputs, Codex/Reads and Codex/Phases have the lemmas of each phase, and Codex/Correct,
--   Codex/Panics, Codex/Decides, Codex/Context, Codex/Repository, Codex/Frame, Codex/Growth,
--   Codex/Permute, Codex/Opened, Codex/Asserts, Codex/Script and Codex/Equality the theorems, with
--   the registers of a lock in Codex/Armed. Codex/Stand is the stand of the tests of the file, and
--   Stand/Cases the tests; Stand/Script has what the instructions of their lock script do on
--   a machine that is to halt on a failed check,
--   Stand/Steps and Stand/Body how it runs, Stand/Verdict and Stand/Lock what it
--   lets through, and Stand/Refusals the tests without a script.
-- Issue (src/issue.rs): the issue of a contract, its metadata and ids; Issue/Consensus is
--   `Consensus`, Issue/Order the order of codexes (src/codex.rs), and Issue/Founding the
--   verification of the genesis of an issue under its codex.
-- Serde: the macro of src/macros.rs over records of the calls of serde that it makes. Serde/Address
--   is `CellAddr` (src/operation.rs), Serde/RawData `RawData` and Serde/Token `AuthToken`
--   (src/state.rs).
-- Baid64: the forms and texts of ids and tokens. Identity is src/util.rs.
-- Stl (src/stl.rs): the library of strict types. Stl/Generator (src/bin/ultrasonic-stl.rs) is the
--   program that writes it with a description of four types, as the sequence of its calls of the
--   file system, which a parameter accepts or refuses; Generator/Makes, Generator/Steps and
--   Generator/Exact have which calls are made.
-- Examples: concrete instances of all parameters, and runs.
--
-- A `u16` or `u8` is a number; where the code adds to one, the sum is taken modulo 2 ^ 16, or is a
-- panic where a build checks overflow; the debug assertions of `verify` are in Codex/Asserts. A
-- confined vector is a list, and a theorem that needs the bound of 2 ^ 16 - 1 items has it as a
-- hypothesis. All loops are structural recursion on lists; the printing of a `u16` has five steps,
-- one for each digit. The loop of a script in Exec/Drain runs on fuel, which is enough when it is
-- above the number of cells.
--
-- zk-aluvm, commit_verify, strict_encoding and amplify are other crates: their cores, machines,
-- hashes, encodings and hexadecimal coding are parameters, and the hypotheses on them say what they
-- document: registers that are put are read back, a machine that is reset is as it was made, a
-- machine panics only where the resolver of libraries does, and uses it only by calling it,
-- encodings are unambiguous. Nothing is assumed of hashes: what an id binds holds unless two inputs
-- that were hashed for the ids differ and hash alike. In the same way baid64 codes payloads that
-- read back, and a serde format is a record of calls with their results, of which a theorem says
-- what it needs.
--
-- Not modelled: the derived serde and strict encodings of structures, which macros generate; the
-- parsing of arguments, which is a call of strict_types; the tests but those of `Codex::verify`, which
-- compare with fixed texts and digests or run a script of zk-aluvm; and src/lib.rs but for one
-- constant, which only declares modules.
pub mod Prelude
pub mod Externals
pub mod State
pub mod Isa
pub mod Ids
pub mod Operation
pub mod Codex
pub mod Serde
pub mod Baid64
pub mod Identity
pub mod Issue
pub mod Stl
pub mod Examples
