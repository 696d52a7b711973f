-- ===== src/Examples/IsaRuns.antt =====
-- Runs of the instructions (src/isa).
use ultrasonic.Prelude.{
  ℕ, refl, List, ◌^◌, ◌≤◌, ◌<◌, ◌≡◌, [], ◌∷◌, none, some, arith, length, if◌then◌else◌, ◌==◌,
}
use ultrasonic.Externals.{Status}
use ultrasonic.State.{StateCell, StateData}
use ultrasonic.State.Value.{StateValue}
use ultrasonic.Isa.Core.{in_ro, UsonicCore, zeroes, Io, Mem, index, at}
use ultrasonic.Isa.Instr.{UsonicInstr, ld_i_ro, ld_i_ao, rst_i_ro, usonic, gfa}
use ultrasonic.Isa.Context.{VmContext}
use ultrasonic.Isa.Microcode.Cells.{cells, IsConfined, IsInRange}
use ultrasonic.Isa.Microcode.Iteration.{observe}
use ultrasonic.Isa.Exec
use ultrasonic.Isa.Exec.Usonic
use ultrasonic.Isa.Exec.Usonic.{Whole}
use ultrasonic.Isa.Exec.Steps.{view, step, size, effect, exec-step}
use ultrasonic.Isa.Exec.Run.{run, run-IsInRange}
use ultrasonic.Isa.Exec.{AnyInstr}
use ultrasonic.Isa.Exec.Loads.{loads}
use ultrasonic.Isa.Microcode.Bounds.{IoCat-discrete}
use ultrasonic.Isa.Exec.Interleaved.{load_next-nth}
use ultrasonic.Isa.Exec.Regs.{reg, exec-dst_regs, dst_regs_misses}
use ultrasonic.Examples.Machine.{
  outside, names, names-AreDistinct, RegisterFile, registers, register_laws, pair_laws, vm,
}

abbrev pub context : VmContext outside
context = record {
  destructible_input = StateValue.single 5 ∷ StateValue.double 6 7 ∷ [];
  immutable_input = [];
  destructible_output = [];
  immutable_output = [];
}

-- A core whose iterators stand at the first cells, and whose `ED` holds 1.
abbrev pub core : UsonicCore RegisterFile
core = record { ui = zeroes; gfa = λ r. if r == 3 then some 1 else none }

abbrev pub whole : Whole vm
whole = (core, Status.ok)

pub context-IsConfined : IsConfined context
context-IsConfined cat = confined cat.io cat.mem
  where
    confined :
        (io : Io) (mem : Mem) → length (cells context (record { io = io; mem = mem })) < 2 ^ 16
    confined Io.input Mem.read_once = omega arith
    confined Io.input Mem.append_only = omega arith
    confined Io.output Mem.read_once = omega arith
    confined Io.output Mem.append_only = omega arith

pub core-IsInRange : IsInRange context core
unfolding at index
core-IsInRange cat = in_range cat.io cat.mem
  where
    in_range :
        (io : Io) (mem : Mem)
        → at core.ui (index (record { io = io; mem = mem }))
          ≤ length (cells context (record { io = io; mem = mem }))
    in_range Io.input Mem.read_once = omega arith
    in_range Io.input Mem.append_only = omega arith
    in_range Io.output Mem.read_once = omega arith
    in_range Io.output Mem.append_only = omega arith

exec-step_example :
    view vm (Usonic.exec vm ld_i_ro 0 whole context).1
    ≡ step (size context) (effect ld_i_ro) (view vm whole)
exec-step_example = exec-step vm pair_laws context context-IsConfined ld_i_ro 0 whole

run-IsInRange_example :
    IsInRange context
      (run vm context
        ((usonic ld_i_ro, 0) ∷ (gfa 2, 1) ∷ (usonic ld_i_ro, 2) ∷ (usonic ld_i_ro, 3) ∷ [])
        whole).0
run-IsInRange_example =
    run-IsInRange vm pair_laws context context-IsConfined
      ((usonic ld_i_ro, 0) ∷ (gfa 2, 1) ∷ (usonic ld_i_ro, 2) ∷ (usonic ld_i_ro, 3) ∷ []) whole
      core-IsInRange

exec-dst_regs_example : reg vm (Usonic.exec vm ld_i_ro 0 whole context).1 4 ≡ none
unfolding Usonic.dst_regs
exec-dst_regs_example =
    exec-dst_regs vm pair_laws names-AreDistinct register_laws context ld_i_ro 0 whole 4
      ((λ e. omega arith), ((λ e. omega arith), ((λ e. omega arith), ((λ e. omega arith), tt))))

dst_regs_misses_example :
    ((instr : UsonicInstr) → Exec.dst_regs vm (usonic instr) ≡ [])
    × (reg vm (Exec.exec vm (usonic ld_i_ro) 0 whole context).1 0 ≡ some 5)
unfolding ultrasonic.Isa.Context.state_value at index ultrasonic.State.Value.into_iter
dst_regs_misses_example =
    dst_regs_misses vm pair_laws names-AreDistinct register_laws context 0 whole

-- After a reset, one load of the category and one of another.
abbrev since : List (AnyInstr vm × ℕ)
since = (usonic ld_i_ro, 2) ∷ (gfa 2, 3) ∷ (usonic ld_i_ao, 4) ∷ []

load_next-nth_example :
    let now = run vm context ((usonic ld_i_ro, 0) ∷ (usonic rst_i_ro, 1) ∷ since) whole in
    let loaded = (Usonic.load_next vm in_ro now context).1 in
    (loaded.1 ≡ Status.ok)
    × (observe names registers context (loaded.0) ≡ some 6 ∷ some 7 ∷ none ∷ none ∷ [])
unfolding loads IoCat-discrete ultrasonic.State.Value.into_iter
load_next-nth_example =
    load_next-nth vm pair_laws register_laws names-AreDistinct context context-IsConfined in_ro
      ((usonic ld_i_ro, 0) ∷ []) since rst_i_ro 1 whole refl ((λ e. cc), (tt, ((λ e. cc), tt)))
      core-IsInRange
