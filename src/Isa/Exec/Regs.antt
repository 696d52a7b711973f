-- ===== src/Isa/Exec/Regs.antt =====
-- The registers that instructions write, and those that `dst_regs` names (src/isa/exec.rs).
use ultrasonic.Prelude.{◌≡◌, ◌≢◌, refl, ap, ◌∙◌, [], ◌∷◌, Option, All}
use ultrasonic.Externals.{Externals, AreDistinct}
use ultrasonic.Isa.Instr.{
  UsonicInstr, ck_nx_i_ro, ck_nx_i_ao, ck_nx_o_ro, ck_nx_o_ao, ld_i_ro, ld_i_ao, ld_o_ro, ld_o_ao,
  rst_i_ro, rst_i_ao, rst_o_ro, rst_o_ao, usonic,
}
use ultrasonic.Isa.Core.{IoCat, in_ro, in_ao, out_ro, out_ao, GfaLaws}
use ultrasonic.Isa.Context.{VmContext}
use ultrasonic.Isa.Microcode.{has_data, reset}
use ultrasonic.Isa.Microcode.Load.{load-registers, element, current}
use ultrasonic.Isa.Machine.{Machine, CoreLaws}
use ultrasonic.Isa.Exec.Usonic
use ultrasonic.Isa.Exec.Usonic.{Whole, flag, quiet, check_next, load_next, restart}
use ultrasonic.Isa.Exec

module _ {E : Externals} (vm : Machine E) where
  -- A register, as a script reads it.
  abbrev pub reg : Whole vm → E.RegE → Option E.Fe
  reg c r = vm.gfa.get (vm.core.cx _ c).gfa r

module _ {E : Externals} (vm : Machine E) (core_laws : CoreLaws vm.core)
    (distinct : AreDistinct vm.regs) (gfa_laws : GfaLaws vm.gfa) (context : VmContext E) where
  open vm use {regs, gfa, core}

  cx-flag : (c : Whole vm) (res : _) → core.cx _ (flag vm c res).1 ≡ res.1
  unfolding flag
  cx-flag c (res, x) = core_laws.cx-set_co _ _ _ ∙ core_laws.cx-set_cx _ c x

  check_keeps :
      (cat : IoCat) (c : Whole vm) (r : E.RegE)
      → reg vm (check_next vm cat c context).1 r ≡ reg vm c r
  unfolding check_next has_data
  check_keeps cat c r = ap (λ x. gfa.get x.gfa r) (cx-flag c _)

  load_keeps :
      (cat : IoCat) (c : Whole vm) (r : E.RegE)
      → All (λ d. r ≢ d) (regs.ea ∷ regs.eb ∷ regs.ec ∷ regs.ed ∷ [])
      → reg vm (load_next vm cat c context).1 r ≡ reg vm c r
  unfolding load_next
  load_keeps cat c r h =
      ap (λ x. gfa.get x.gfa r) (cx-flag c _)
      ∙ (load-registers regs gfa (core.cx _ c) cat context distinct gfa_laws).4 r h.0 h.1.0 h.1.1.0
          h.1.1.1.0

  restart_keeps :
      (cat : IoCat) (c : Whole vm) (r : E.RegE) → reg vm (restart vm cat c).1 r ≡ reg vm c r
  unfolding restart quiet reset
  restart_keeps cat c r = ap (λ x. gfa.get x.gfa r) (core_laws.cx-set_cx _ c _)

  -- An USONIC instruction writes no register but those that its own `dst_regs` lists.
  -- A core and its registers are taken to keep what is set in them, and `EA` to `ED` are different.
  pub exec-dst_regs :
      (instr : UsonicInstr) (site : vm.Site) (c : Whole vm) (r : E.RegE)
      → All (λ d. r ≢ d) (Usonic.dst_regs vm instr)
      → reg vm (Usonic.exec vm instr site c context).1 r ≡ reg vm c r
  unfolding Usonic.exec Usonic.dst_regs
  exec-dst_regs ck_nx_i_ro site c r h = check_keeps in_ro c r
  exec-dst_regs ck_nx_i_ao site c r h = check_keeps in_ao c r
  exec-dst_regs ck_nx_o_ro site c r h = check_keeps out_ro c r
  exec-dst_regs ck_nx_o_ao site c r h = check_keeps out_ao c r
  exec-dst_regs ld_i_ro site c r h = load_keeps in_ro c r h
  exec-dst_regs ld_i_ao site c r h = load_keeps in_ao c r h
  exec-dst_regs ld_o_ro site c r h = load_keeps out_ro c r h
  exec-dst_regs ld_o_ao site c r h = load_keeps out_ao c r h
  exec-dst_regs rst_i_ro site c r h = restart_keeps in_ro c r
  exec-dst_regs rst_i_ao site c r h = restart_keeps in_ao c r
  exec-dst_regs rst_o_ro site c r h = restart_keeps out_ro c r
  exec-dst_regs rst_o_ao site c r h = restart_keeps out_ao c r

  -- `dst_regs` of the complete instruction set lists no register for any USONIC instruction, though
  -- a load puts the first element of the next cell into `EA`, whatever stood there.
  -- A core and its registers are taken to keep what is set in them, and `EA` to `ED` are different.
  pub dst_regs_misses :
      (site : vm.Site) (c : Whole vm)
      → ((instr : UsonicInstr) → Exec.dst_regs vm (usonic instr) ≡ [])
        × (reg vm (Exec.exec vm (usonic ld_i_ro) site c context).1 regs.ea
            ≡ element 0 (current regs gfa (core.cx _ c) in_ro context))
  unfolding Exec.dst_regs Exec.exec Usonic.exec Usonic.src_regs load_next
  dst_regs_misses site c = (
    λ instr. refl,
    ap (λ x. gfa.get x.gfa regs.ea) (cx-flag c _)
        ∙ (load-registers regs gfa (core.cx _ c) in_ro context distinct gfa_laws).0,
  )
