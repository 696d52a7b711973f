-- ===== src/Isa/Exec/Run.antt =====
-- Programs: any sequence of instructions of all architectures, as control flow may choose it
-- (src/isa/exec.rs).
use mathlib.Core.Path.{subst}
use ultrasonic.Prelude.{sym, ◌≡◌, ap, List, [], ◌∷◌, arith}
use ultrasonic.Externals.{Externals}
use ultrasonic.Isa.Instr.{UsonicInstr, ctrl, gfa, usonic, reserved}
use ultrasonic.Isa.Core.{UsonicCore, subcore_gfa, merge_gfa, merge_no_ext}
use ultrasonic.Isa.Context.{VmContext}
use ultrasonic.Isa.Microcode.Cells.{IsConfined, IsInRange}
use ultrasonic.Isa.Machine.{Machine, CoreLaws}
use ultrasonic.Isa.Exec.Usonic
use ultrasonic.Isa.Exec.Usonic.{Whole}
use ultrasonic.Isa.Exec.{AnyInstr, exec}
use ultrasonic.Isa.Exec.Steps.{Cursors, effect, view, size, exec-step, step-position_le}

module _ {E : Externals} (vm : Machine E) (context : VmContext E) where
  unfoldable pub run : List (AnyInstr vm × vm.Site) → Whole vm → Whole vm
  run [] c = c
  run ((instr, site) ∷ rest) c = run rest (exec vm instr site c context).1

module _ {E : Externals} (vm : Machine E) (laws : CoreLaws vm.core) (context : VmContext E) where
  abbrev pub core_of : Whole vm → UsonicCore vm.Gfa
  core_of c = vm.core.cx _ c

  -- Control and reserved instructions leave the whole extension as it was, and field instructions
  -- all but the field core, which is then the one that their own run left.
  -- A core is taken to keep what is set in it.
  pub exec-foreign :
      (c : Whole vm) (site : vm.Site)
      → ((i : vm.Ctrl) → core_of (exec vm (ctrl i) site c context).1 ≡ core_of c)
        × ((i : vm.Reserved) → core_of (exec vm (reserved i) site c context).1 ≡ core_of c)
        × ((i : vm.Field)
            → core_of (exec vm (gfa i) site c context).1 ≡ record (core_of c) {
              gfa = vm.core.cx _ (vm.field_isa.exec i site (vm.core.subcore _ _ subcore_gfa c)).1;
            })
  unfolding exec merge_gfa merge_no_ext
  exec-foreign c site = (
    λ i. laws.cx-merge_subcore _ _ _ c _,
    λ i. laws.cx-merge_subcore _ _ _ c _,
    λ i. laws.cx-merge_subcore _ _ _ c _,
  )

  usonic-IsInRange :
      IsConfined context
      → (i : UsonicInstr) (site : vm.Site) (c : Whole vm) → IsInRange context (core_of c)
      → IsInRange context (core_of (Usonic.exec vm i site c context).1)
  usonic-IsInRange confined i site c range cat =
      let moved : _ =
        ap (λ (s : Cursors). s.position cat) (exec-step vm laws context confined i site c) in
      omega (arith, moved, step-position_le (size context) (effect i) (view vm c) range cat)

  pub exec-IsInRange :
      IsConfined context
      → (i : AnyInstr vm) (site : vm.Site) (c : Whole vm) → IsInRange context (core_of c)
      → IsInRange context (core_of (exec vm i site c context).1)
  unfolding exec
  exec-IsInRange confined (usonic i) site c range = usonic-IsInRange confined i site c range
  exec-IsInRange confined (ctrl i) site c range =
      subst (IsInRange context) (sym ((exec-foreign c site).0 i)) range
  exec-IsInRange confined (reserved i) site c range =
      subst (IsInRange context) (sym ((exec-foreign c site).1 i)) range
  exec-IsInRange confined (gfa i) site c range =
      subst (IsInRange context) (sym ((exec-foreign c site).2 i)) range

  -- Whatever the program and the control flow, the iterators stay within the cells of their
  -- categories, if they were there before. The context is confined as those of operations are.
  -- A core is taken to keep what is set in it.
  pub run-IsInRange :
      IsConfined context
      → (program : List (AnyInstr vm × vm.Site)) (c : Whole vm) → IsInRange context (core_of c)
      → IsInRange context (core_of (run vm context program c))
  unfolding run
  run-IsInRange confined [] c range = range
  run-IsInRange confined ((i, site) ∷ rest) c range =
      run-IsInRange confined rest (exec vm i site c context).1
        (exec-IsInRange confined i site c range)
