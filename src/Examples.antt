-- ===== src/Examples.antt =====
-- Concrete instances of the parameters, and runs of the code on them.
mod Field
mod Machine
mod Encodings
mod Items
mod Contract
mod CodexRuns
mod CommitRuns
mod IsaRuns
mod BytecodeRuns
mod StateRuns
mod Texts
mod Formats
mod SerdeRuns
mod MasmRuns
mod OrderRuns
mod ScriptRuns
mod ReadRuns
mod StlRuns
mod StandMachine
mod StandLaws
mod StandRuns
