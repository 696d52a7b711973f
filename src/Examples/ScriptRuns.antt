-- ===== src/Examples/ScriptRuns.antt =====
-- Scripts (src/isa/exec.rs, src/codex.rs), run: loops over cells, builds that check overflow, the registers
-- of a lock, and the debug output of a core (src/isa/core.rs).
use ultrasonic.Prelude.{ℕ, ◌≡◌, refl, true, [], ◌∷◌, none, some, List, done, arith, IsU16}
use ultrasonic.State.Value.{StateValue, into_iter}
use ultrasonic.Isa.Core.{IoCat, Io, Mem, in_ro, UsonicCore, zeroes, index, at, FitsU16}
use ultrasonic.Isa.Core.Text.{debug, debug_iff}
use ultrasonic.Isa.Instr.{usonic, gfa, ld_i_ro, ld_i_ao, rst_i_ro}
use ultrasonic.Isa.Microcode.Bounds.{IoCat-discrete}
use ultrasonic.Isa.Exec.{AnyInstr, exec}
use ultrasonic.Isa.Exec.Usonic.{Whole}
use ultrasonic.Isa.Exec.Run.{run}
use ultrasonic.Isa.Exec.Loads.{loads, NeverResets}
use ultrasonic.Isa.Exec.Drain.{drain, drain-reset}
use ultrasonic.Isa.Exec.Debug.{checked_run, checked_run_lem}
use ultrasonic.Codex.Armed.{RegisterLaws, AllDiffer}
use ultrasonic.Codex.Script.{seen, verify-drain}
use ultrasonic.Externals.{Status}
use ultrasonic.Codex.Opened.{Opened, verify-Opened}
use ultrasonic.Codex.Verify.{
  verify, check_inputs, armed, resolver, checked, put_witness, lookup, run_lock, lock_result,
  check_input, ok_or, context_of, read_immutable, main_result,
}
use ultrasonic.Prelude.{bytes_eq}
use ultrasonic.State.Value
use ultrasonic.State.Auth.{to_fe256}
use ultrasonic.Operation.{VerifiedOperation, new_unchecked}
use ultrasonic.Operation.Commit.{opid}
use ultrasonic.Examples.Encodings.{plain}
use ultrasonic.Examples.Items.{encoders}
use ultrasonic.Examples.Machine.{
  outside, names-AreDistinct, RegisterFile, register_laws, pair_laws, vm, empty,
}
use ultrasonic.Examples.IsaRuns.{context, core, whole, context-IsConfined, core-IsInRange}
use ultrasonic.Examples.Contract.{
  runtime, honest, codex, lock_vm, contract, memory, operation, input, lock_vm-ResetLaws, ScriptVm,
}

-- What is run between two loads: a field instruction and a load of another category.
abbrev between : List (AnyInstr vm × ℕ)
between = (gfa 2, 3) ∷ (usonic ld_i_ao, 4) ∷ []

abbrev body : Whole vm → List (AnyInstr vm × ℕ)
body c = between

between-NeverResets : NeverResets vm in_ro between
between-NeverResets = (tt, ((λ e. cc), tt))

loads-between : loads vm in_ro between ≡ 0
unfolding loads IoCat-discrete
loads-between = refl

drain-reset_example :
    drain vm context in_ro body 3 (exec vm (usonic rst_i_ro) 0 whole context).1
    ≡ some ((some 5 ∷ none ∷ none ∷ none ∷ []) ∷ (some 6 ∷ some 7 ∷ none ∷ none ∷ []) ∷ [])
unfolding into_iter
drain-reset_example =
    drain-reset vm pair_laws register_laws names-AreDistinct context context-IsConfined in_ro body
      (λ c. between-NeverResets) (λ c. loads-between) rst_i_ro 0 whole 3 refl core-IsInRange
      (omega arith)

abbrev program : List (AnyInstr vm × ℕ)
program = (usonic ld_i_ro, 0) ∷ (gfa 2, 1) ∷ (usonic ld_i_ro, 2) ∷ (usonic ld_i_ro, 3) ∷ []

checked_run_lem_example : checked_run vm context program whole ≡ done (run vm context program whole)
checked_run_lem_example = checked_run_lem vm context context-IsConfined program whole

lock_vm-RegisterLaws : RegisterLaws lock_vm
lock_vm-RegisterLaws = record {
  get-with_config = λ c n r. refl;
  get-set_self = λ v r x. register_laws.get-put_self v.file r (some x);
  get-set_ne = λ v r s x h. register_laws.get-put_ne v.file r s (some x) h;
}

names-AllDiffer : AllDiffer {R = ℕ} (4 ∷ 5 ∷ 6 ∷ 7 ∷ 8 ∷ [])
names-AllDiffer = (
  ((λ e. omega arith), ((λ e. omega arith), ((λ e. omega arith), ((λ e. omega arith), tt)))),
  (
    ((λ e. omega arith), ((λ e. omega arith), ((λ e. omega arith), tt))),
    (((λ e. omega arith), ((λ e. omega arith), tt)), (((λ e. omega arith), tt), (tt, tt))),
  ),
)

-- What the verification of the operation with the right key gives.
abbrev accepted : VerifiedOperation outside
accepted = record { cached = opid plain encoders (operation 3 40); operation = operation 3 40 }

verify-Opened_example : Opened runtime honest codex memory (input 40) × Unit {0}
unfolding verify check_inputs check_input run_lock lock_result armed resolver checked put_witness
    to_fe256 Value.get ok_or bytes_eq lookup read_immutable main_result new_unchecked context_of
verify-Opened_example =
    verify-Opened runtime honest codex memory lock_vm-RegisterLaws names-AllDiffer lock_vm-ResetLaws
      contract (operation 3 40) accepted (omega arith, omega arith) refl

-- The same iterators over other registers.
abbrev cleared : UsonicCore RegisterFile
cleared = record { ui = zeroes; gfa = empty }

zeroes-FitsU16 : (g : RegisterFile) → FitsU16 (record { ui = zeroes; gfa = g })
unfolding at index
zeroes-FitsU16 g cat = fits cat.io cat.mem
  where
    fits : (io : Io) (mem : Mem) → IsU16 (at zeroes (index (record { io = io; mem = mem })))
    fits Io.input Mem.read_once = omega arith
    fits Io.input Mem.append_only = omega arith
    fits Io.output Mem.read_once = omega arith
    fits Io.output Mem.append_only = omega arith

debug_iff_example : debug true core ≡ debug true cleared
debug_iff_example =
    (debug_iff true core cleared (zeroes-FitsU16 core.gfa) (zeroes-FitsU16 empty)).1 refl

whole-starts : (k : IoCat) → at (vm.core.cx _ whole).ui (index k) ≡ 0
unfolding at index
whole-starts k = starts k.io k.mem
  where
    starts : (io : Io) (mem : Mem) → at zeroes (index (record { io = io; mem = mem })) ≡ 0
    starts Io.input Mem.read_once = refl
    starts Io.input Mem.append_only = refl
    starts Io.output Mem.read_once = refl
    starts Io.output Mem.append_only = refl

verify-drain_example :
    (site : ℕ) × (after : ScriptVm) × (lookup codex.verifiers 3 ≡ some site)
    × (runtime.main_vm.exec
          (runtime.main_vm.with_config 2 101)
          site
          (seen runtime honest codex memory (operation 3 40))
          (resolver runtime honest)
        ≡ done (Status.ok, after))
    × (drain vm (seen runtime honest codex memory (operation 3 40)) in_ro body 65536 whole
        ≡ some ((some 5 ∷ none ∷ none ∷ none ∷ []) ∷ []))
unfolding verify check_inputs check_input run_lock lock_result armed resolver checked put_witness
    to_fe256 Value.get ok_or bytes_eq lookup read_immutable main_result new_unchecked context_of
    into_iter
verify-drain_example =
    verify-drain runtime honest codex memory (operation 3 40) vm pair_laws register_laws
      names-AreDistinct in_ro body (λ c. between-NeverResets) (λ c. loads-between) whole
      whole-starts 65536 (omega arith) lock_vm-ResetLaws contract accepted
      (omega arith, omega arith) (omega arith, omega arith) refl
