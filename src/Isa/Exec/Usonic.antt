-- ===== src/Isa/Exec/Usonic.antt =====
-- `Instruction for UsonicInstr` of src/isa/exec.rs.
use ultrasonic.Prelude.{ℕ, Bool, false, if◌then◌else◌, Option, none, List, [], ◌∷◌}
use ultrasonic.Externals.{Externals, ok, fail}
use ultrasonic.Isa.Instr.{
  UsonicInstr, ck_nx_i_ro, ck_nx_i_ao, ck_nx_o_ro, ck_nx_o_ao, ld_i_ro, ld_i_ao, ld_o_ro, ld_o_ao,
  rst_i_ro, rst_i_ao, rst_o_ro, rst_o_ao,
}
use ultrasonic.Isa.Core.{IoCat, in_ro, in_ao, out_ro, out_ao, UsonicCore}
use ultrasonic.Isa.Context.{VmContext}
use ultrasonic.Isa.Microcode.{has_data, load, reset}
use ultrasonic.Isa.Machine.{Machine}

unfoldable pub is_goto_target : UsonicInstr → Bool
is_goto_target instr = false

unfoldable pub op_data_bytes : UsonicInstr → ℕ
op_data_bytes ck_nx_i_ro = 0
op_data_bytes _ = 0

unfoldable pub ext_data_bytes : UsonicInstr → ℕ
ext_data_bytes ck_nx_i_ro = 0
ext_data_bytes _ = 0

module _ {E : Externals} (vm : Machine E) where
  open vm use {Gfa, Site, Step, Goto, next, no_target, regs, gfa, core}
  open regs use {ea, eb, ec, ed}
  open core use {Core, cx, set_cx, set_co}

  unfoldable pub local_goto_pos : UsonicInstr → Goto
  local_goto_pos instr = no_target

  unfoldable pub remote_goto_pos : UsonicInstr → Option Site
  remote_goto_pos instr = none

  unfoldable pub src_regs : UsonicInstr → List E.RegE
  src_regs instr = []

  unfoldable pub dst_regs : UsonicInstr → List E.RegE
  dst_regs ld_i_ro = ea ∷ eb ∷ ec ∷ ed ∷ []
  dst_regs ld_i_ao = ea ∷ eb ∷ ec ∷ ed ∷ []
  dst_regs ld_o_ro = ea ∷ eb ∷ ec ∷ ed ∷ []
  dst_regs ld_o_ao = ea ∷ eb ∷ ec ∷ ed ∷ []
  dst_regs _ = []

  abbrev pub Whole : Type 0
  Whole = Core (UsonicCore Gfa)

  -- The end of `exec`, after a call on the core that returned a `bool`: `CO` is set from it.
  unfoldable pub flag : Whole → Bool × UsonicCore Gfa → Step × Whole
  flag c (res, x) = (next, set_co _ (set_cx _ c x) (if res then ok else fail))

  -- A reset returns before that.
  unfoldable pub quiet : Whole → UsonicCore Gfa → Step × Whole
  quiet c x = (next, set_cx _ c x)

  unfoldable pub check_next : IoCat → Whole → VmContext E → Step × Whole
  check_next cat c context = flag c (has_data (cx _ c) cat context)

  unfoldable pub load_next : IoCat → Whole → VmContext E → Step × Whole
  load_next cat c context = flag c (load regs gfa (cx _ c) cat context)

  unfoldable pub restart : IoCat → Whole → Step × Whole
  restart cat c = quiet c (reset (cx _ c) cat)

  unfoldable pub exec : UsonicInstr → Site → Whole → VmContext E → Step × Whole
  unfolding flag quiet check_next load_next restart
  exec ck_nx_i_ro _ c context = check_next in_ro c context
  exec ck_nx_i_ao _ c context = check_next in_ao c context
  exec ck_nx_o_ro _ c context = check_next out_ro c context
  exec ck_nx_o_ao _ c context = check_next out_ao c context
  exec ld_i_ro _ c context = load_next in_ro c context
  exec ld_i_ao _ c context = load_next in_ao c context
  exec ld_o_ro _ c context = load_next out_ro c context
  exec ld_o_ao _ c context = load_next out_ao c context
  exec rst_i_ro _ c _ = restart in_ro c
  exec rst_i_ao _ c _ = restart in_ao c
  exec rst_o_ro _ c _ = restart out_ro c
  exec rst_o_ao _ c _ = restart out_ao c
