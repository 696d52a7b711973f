-- ===== src/Isa/Exec/Interleaved.antt =====
-- Which cell a load finds (src/isa/exec.rs), whatever else the program does.
use mathlib.Core.Path.{subst}
use mathlib.Core.Logic.{if_pos}
use ultrasonic.Prelude.{
  ◌+◌, ◌≡◌, refl, ap, ◌∙◌, List, [], ◌∷◌, ◌++◌, Option, Bool, arith, if◌then◌else◌, get_elem?,
  is_some,
}
use ultrasonic.State.Value.{StateValue}
use ultrasonic.Externals.{Externals, AreDistinct, ok, fail}
use ultrasonic.Isa.Instr.{UsonicInstr, usonic}
use ultrasonic.Isa.Core.{IoCat, UsonicCore, GfaLaws}
use ultrasonic.Isa.Context.{VmContext}
use ultrasonic.Isa.Microcode.{load}
use ultrasonic.Isa.Microcode.Load.{element}
use ultrasonic.Isa.Microcode.Cells.{cells, IsConfined, IsInRange}
use ultrasonic.Isa.Microcode.Iteration.{observe, outcome_lem}
use ultrasonic.Isa.Microcode.Bounds.{IoCat-discrete}
use ultrasonic.Isa.Machine.{Machine, CoreLaws}
use ultrasonic.Isa.Exec.Usonic.{Whole, flag, load_next}
use ultrasonic.Isa.Exec.{AnyInstr, exec}
use ultrasonic.Isa.Exec.Steps.{start_over, Cursors, effect, view, size, step, exec-step}
use ultrasonic.Isa.Exec.Run.{run, core_of, exec-IsInRange, run-IsInRange}
use ultrasonic.Isa.Exec.Loads.{
  loads, NeverResets, capped, get_elem?-capped, position, run-append, run-capped,
}

module _ {E : Externals} (vm : Machine E) (laws : CoreLaws vm.core) (gfa_laws : GfaLaws vm.gfa)
    (distinct : AreDistinct vm.regs) (context : VmContext E) (confined : IsConfined context)
    (cat : IoCat) where
  abbrev pub registers : Whole vm → List (Option E.Fe)
  registers c = observe vm.regs vm.gfa context (core_of vm laws context c)

  -- A load shows the cell at the iterator.
  pub load_next-shows :
      (c : Whole vm)
      → let found = get_elem? (cells context cat) (position vm laws context confined cat c) in
        let loaded = (load_next vm cat c context).1 in
        (vm.core.co _ loaded ≡ (if is_some found then ok else fail))
        × (registers loaded
            ≡ element 0 found ∷ element 1 found ∷ element 2 found ∷ element 3 found ∷ [])
  unfolding load_next flag
  load_next-shows c =
      let x : Bool × UsonicCore vm.Gfa =
        load vm.regs vm.gfa (core_of vm laws context c) cat context in
      let status : _ = if x.0 then ok else fail in
      let shown : _ = outcome_lem distinct gfa_laws context (core_of vm laws context c) cat in
      let kept : _ =
        laws.cx-set_co _ (vm.core.set_cx _ c (x.1)) status ∙ laws.cx-set_cx _ c (x.1) in
      (
        laws.co-set_co _ (vm.core.set_cx _ c (x.1)) status
            ∙ ap (λ (r : Bool × List (Option E.Fe)). if r.0 then ok else fail) shown,
        ap (observe vm.regs vm.gfa context) kept
            ∙ ap (λ (r : Bool × List (Option E.Fe)). r.1) shown,
      )

  -- After its reset an iterator stands at the first cell.
  pub reset-position :
      (i : UsonicInstr) (site : vm.Site) (c : Whole vm)
      → effect i ≡ start_over cat
      → position vm laws context confined cat (exec vm (usonic i) site c context).1 ≡ 0
  unfolding exec step
  reset-position i site c resets =
      ap (λ (s : Cursors). s.position cat) (exec-step vm laws context confined i site c)
      ∙ ap (λ e. (step (size context) e (view vm c)).position cat) resets
      ∙ if_pos (IoCat-discrete cat cat) refl _ _

  -- Whatever the program was before a category was reset, and whatever it does after but for another
  -- reset of the category, the next load of the category shows the cell with the number of its loads
  -- since then: it sets `CO` from whether there is such a cell, and `EA` to `ED` to the elements of the
  -- cell. Loads of other categories, field instructions and control flow between them change nothing.
  -- The iterators are within the cells at first. The context is confined as those of operations are,
  -- cores and registers are taken to keep what is set in them, and `EA` to `ED` are different.
  pub load_next-nth :
      (before since : List (AnyInstr vm × vm.Site)) (i : UsonicInstr) (site : vm.Site)
      (c : Whole vm)
      → effect i ≡ start_over cat
      → NeverResets vm cat since
      → IsInRange context (core_of vm laws context c)
      → let now = run vm context (before ++ (usonic i, site) ∷ since) c in
        let found = get_elem? (cells context cat) (loads vm cat since) in
        let loaded = (load_next vm cat now context).1 in
        (vm.core.co _ loaded ≡ (if is_some found then ok else fail))
        × (registers loaded
            ≡ element 0 found ∷ element 1 found ∷ element 2 found ∷ element 3 found ∷ [])
  unfolding run
  load_next-nth before since i site c resets calm range =
      let first : Whole vm = run vm context before c in
      let restarted : Whole vm = (exec vm (usonic i) site first context).1 in
      let now : Whole vm = run vm context (before ++ (usonic i, site) ∷ since) c in
      let split : now ≡ run vm context since restarted =
        run-append vm laws context confined cat before ((usonic i, site) ∷ since) c in
      let range₁ : _ =
        exec-IsInRange vm laws context confined (usonic i) site first
          (run-IsInRange vm laws context confined before c range) in
      let plain : 0 + loads vm cat since ≡ loads vm cat since = omega arith in
      let stands : position vm laws context confined cat now
          ≡ capped (size context cat) (loads vm cat since) =
        ap (position vm laws context confined cat) split
        ∙ run-capped vm laws context confined cat since restarted calm range₁
        ∙ ap (λ n. capped (size context cat) (n + loads vm cat since))
            (reset-position i site first resets)
        ∙ ap (capped (size context cat)) plain in
      let found : _ =
        ap (get_elem? (cells context cat)) stands
        ∙ get_elem?-capped (cells context cat) (loads vm cat since) in
      subst
        (λ (v : Option (StateValue E.Fe)).
          (vm.core.co _ (load_next vm cat now context).1 ≡ (if is_some v then ok else fail))
          × (registers (load_next vm cat now context).1
              ≡ element 0 v ∷ element 1 v ∷ element 2 v ∷ element 3 v ∷ []))
        found (load_next-shows now)
