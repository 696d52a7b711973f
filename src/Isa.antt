-- ===== src/Isa.antt =====
-- src/isa: the USONIC instruction set.
pub mod Instr
pub mod Core
pub mod Context
pub mod Microcode
pub mod Machine
pub mod Exec
pub mod Bytecode
pub mod Masm
