-- ===== src/Isa/Exec.antt =====
-- src/isa/exec.rs: execution of instructions over the ALU core, and what they tell of themselves.
pub mod Usonic
pub mod Steps
pub mod Run
pub mod Loads
pub mod Interleaved
pub mod Drain
pub mod Debug
pub mod Regs
use ultrasonic.Prelude.{ℕ, Bool, Option, List, []}
use ultrasonic.Externals.{Externals}
use ultrasonic.Isa.Instr.{UsonicInstr, Instr, ctrl, gfa, usonic, reserved}
use ultrasonic.Isa.Core.{UsonicCore, subcore_gfa, merge_gfa, subcore_no_ext, merge_no_ext}
use ultrasonic.Isa.Context.{VmContext}
use ultrasonic.Isa.Machine.{Machine}
use Usonic

-- `Instruction for Instr`
module _ {E : Externals} (vm : Machine E) where
  open vm use {
    Gfa, Site, Step, Goto, Ctrl, Field, Reserved, core, ctrl_isa, field_isa, reserved_isa,
  }
  open core use {Core, subcore, merge_subcore}

  abbrev pub AnyInstr : Type 0
  AnyInstr = Instr Ctrl Field Reserved

  unfoldable pub is_goto_target : AnyInstr → Bool
  is_goto_target (ctrl instr) = ctrl_isa.is_goto_target instr
  is_goto_target (gfa instr) = field_isa.is_goto_target instr
  is_goto_target (usonic instr) = Usonic.is_goto_target instr
  is_goto_target (reserved instr) = reserved_isa.is_goto_target instr

  unfoldable pub local_goto_pos : AnyInstr → Goto
  local_goto_pos (ctrl instr) = ctrl_isa.local_goto_pos instr
  local_goto_pos (gfa instr) = field_isa.local_goto_pos instr
  local_goto_pos (usonic instr) = Usonic.local_goto_pos vm instr
  local_goto_pos (reserved instr) = reserved_isa.local_goto_pos instr

  unfoldable pub remote_goto_pos : AnyInstr → Option Site
  remote_goto_pos (ctrl instr) = ctrl_isa.remote_goto_pos instr
  remote_goto_pos (gfa instr) = field_isa.remote_goto_pos instr
  remote_goto_pos (usonic instr) = Usonic.remote_goto_pos vm instr
  remote_goto_pos (reserved instr) = reserved_isa.remote_goto_pos instr

  unfoldable pub src_regs : AnyInstr → List E.RegE
  src_regs (ctrl _) = []
  src_regs (gfa instr) = field_isa.src_regs instr
  src_regs (usonic instr) = Usonic.src_regs vm instr
  src_regs (reserved _) = []

  -- The source asks `src_regs` of an USONIC instruction here.
  unfoldable pub dst_regs : AnyInstr → List E.RegE
  dst_regs (ctrl _) = []
  dst_regs (gfa instr) = field_isa.dst_regs instr
  dst_regs (usonic instr) = Usonic.src_regs vm instr
  dst_regs (reserved _) = []

  unfoldable pub op_data_bytes : AnyInstr → ℕ
  op_data_bytes (ctrl instr) = ctrl_isa.op_data_bytes instr
  op_data_bytes (gfa instr) = field_isa.op_data_bytes instr
  op_data_bytes (usonic instr) = Usonic.op_data_bytes instr
  op_data_bytes (reserved _) = 0

  unfoldable pub ext_data_bytes : AnyInstr → ℕ
  ext_data_bytes (ctrl instr) = ctrl_isa.ext_data_bytes instr
  ext_data_bytes (gfa instr) = field_isa.ext_data_bytes instr
  ext_data_bytes (usonic instr) = Usonic.ext_data_bytes instr
  ext_data_bytes (reserved _) = 0

  -- A foreign instruction runs on a subcore, which is merged back.
  unfoldable pub exec :
      AnyInstr → Site → Core (UsonicCore Gfa) → VmContext E → Step × Core (UsonicCore Gfa)
  exec (ctrl instr) site c context =
      let (step, sub) = ctrl_isa.exec instr site (subcore _ _ subcore_no_ext c) in
      (step, merge_subcore _ _ merge_no_ext c sub)
  exec (gfa instr) site c context =
      let (step, sub) = field_isa.exec instr site (subcore _ _ subcore_gfa c) in
      (step, merge_subcore _ _ merge_gfa c sub)
  exec (usonic instr) site c context = Usonic.exec vm instr site c context
  exec (reserved instr) site c context =
      let (step, sub) = reserved_isa.exec instr site (subcore _ _ subcore_no_ext c) in
      (step, merge_subcore _ _ merge_no_ext c sub)
