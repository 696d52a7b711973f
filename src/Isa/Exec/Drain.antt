-- ===== src/Isa/Exec/Drain.antt =====
-- Scripts that load the cells of a category until `CO` fails (src/isa/exec.rs), and run any program
-- after each of them.
use mathlib.Core.Option
use ultrasonic.Prelude.{
  ℕ, zero, suc, ◌<◌, ◌≡◌, refl, ap, ◌∙◌, List, [], ◌∷◌, map, Option, none, some, arith, length,
  drop, get_elem?, is_some, if◌then◌else◌,
}
use ultrasonic.Externals.{Externals, AreDistinct, Status, ok, fail}
use ultrasonic.State.Value.{StateValue}
use ultrasonic.Isa.Instr.{UsonicInstr, usonic}
use ultrasonic.Isa.Core.{IoCat, index, at, UsonicCore, GfaLaws}
use ultrasonic.Isa.Context.{VmContext}
use ultrasonic.Isa.Microcode.Load.{element}
use ultrasonic.Isa.Microcode.Cells.{cells, IsConfined, IsInRange}
use ultrasonic.Isa.Microcode.{load}
use ultrasonic.Isa.Microcode.Iteration.{observe, drop-cons, advance}
use ultrasonic.Isa.Machine.{Machine, CoreLaws}
use ultrasonic.Isa.Exec.Usonic.{Whole, flag, load_next}
use ultrasonic.Isa.Exec.{AnyInstr, exec}
use ultrasonic.Isa.Exec.Steps.{
  start_over, take_next, effect, size, view, Cursors, load_next_lem, step-position_le,
}
use ultrasonic.Isa.Exec.Run.{run, core_of, exec-IsInRange, run-IsInRange}
use ultrasonic.Isa.Exec.Loads.{loads, NeverResets, position, run-capped}
use ultrasonic.Isa.Exec.Interleaved.{load_next-shows, reset-position}

-- The four elements of a cell, as `EA` to `ED` show them.
abbrev pub elements : {Fe : Type 0} → StateValue Fe → List (Option Fe)
elements value =
    element 0 (some value)
    ∷ element 1 (some value)
    ∷ element 2 (some value)
    ∷ element 3 (some value)
    ∷ []

module _ {E : Externals} (vm : Machine E) (context : VmContext E) (cat : IoCat)
    (body : Whole vm → List (AnyInstr vm × vm.Site)) where
  -- What a round adds to what the later ones show: the loop is left when `CO` fails.
  continue :
      Status
      → List (Option E.Fe)
      → Option (List (List (Option E.Fe)))
      → Option (List (List (Option E.Fe)))
  continue Status.ok shown later = Option.map (λ l. shown ∷ l) later
  continue Status.fail shown later = some []

  -- A loop of at most `fuel` rounds over the cells of a category: load the next one and leave when `CO`
  -- fails, else run a program, chosen by all that the core holds, and go on. It gives what `EA` to `ED`
  -- showed in each round but the last.
  unfoldable pub drain : ℕ → Whole vm → Option (List (List (Option E.Fe)))
  unfolding continue
  drain zero c = none
  drain (suc fuel) c =
      let loaded = (load_next vm cat c context).1 in
      continue (vm.core.co _ loaded) (observe vm.regs vm.gfa context (vm.core.cx _ loaded))
        (drain fuel (run vm context (body loaded) loaded))

get_elem?-drop {ℓ} : {A : Type ℓ} (xs : List A) (i : ℕ) → drop i xs ≡ [] → get_elem? xs i ≡ none
get_elem?-drop [] i e = refl
get_elem?-drop (x ∷ xs) zero e = absurd (cc)
get_elem?-drop (x ∷ xs) (suc i) e = get_elem?-drop xs i e

module _ {E : Externals} (vm : Machine E) (laws : CoreLaws vm.core) (gfa_laws : GfaLaws vm.gfa)
    (distinct : AreDistinct vm.regs) (context : VmContext E) (confined : IsConfined context)
    (cat : IoCat) where
  abbrev place : Whole vm → ℕ
  place c = position vm laws context confined cat c

  loaded-place :
      (c : Whole vm)
      → place c < size context cat
      → place (load_next vm cat c context).1 ≡ suc (place c)
  unfolding load_next flag
  loaded-place c inside =
      let x : UsonicCore vm.Gfa = (load vm.regs vm.gfa (core_of vm laws context c) cat context).1 in
      let kept : _ = laws.cx-set_co _ (vm.core.set_cx _ c x) _ ∙ laws.cx-set_cx _ c x in
      ap (λ (y : UsonicCore vm.Gfa). at y.ui (index cat)) kept
      ∙ advance distinct gfa_laws context confined (core_of vm laws context c) cat inside

  loaded-IsInRange :
      (c : Whole vm)
      → IsInRange context (core_of vm laws context c)
      → IsInRange context (core_of vm laws context (load_next vm cat c context).1)
  loaded-IsInRange c range other =
      let moved : _ =
        ap (λ (s : Cursors). s.position other) (load_next_lem vm laws context confined cat c) in
      omega (arith, moved, step-position_le (size context) (take_next cat) (view vm c) range other)

  -- A program that neither loads nor resets the category leaves its iterator.
  quiet-place :
      (program : List (AnyInstr vm × vm.Site)) (c : Whole vm)
      → NeverResets vm cat program
      → loads vm cat program ≡ 0
      → IsInRange context (core_of vm laws context c)
      → place (run vm context program c) ≡ place c
  quiet-place program c calm none_loaded range =
      ground (
        arith,
        run-capped vm laws context confined cat program c calm range,
        none_loaded,
        range cat,
      )

  module _ (body : Whole vm → List (AnyInstr vm × vm.Site))
      (calm : (c : Whole vm) → NeverResets vm cat (body c))
      (idle : (c : Whole vm) → loads vm cat (body c) ≡ 0) where
    pub drain-from :
        (rest : List (StateValue E.Fe)) (fuel : ℕ) (c : Whole vm)
        → drop (place c) (cells context cat) ≡ rest
        → IsInRange context (core_of vm laws context c)
        → length rest < fuel
        → drain vm context cat body fuel c ≡ some (map elements rest)
    unfolding drain continue
    drain-from rest zero c e range enough = absurd (omega arith)
    drain-from [] (suc fuel) c e range enough =
        let shown : _ = load_next-shows vm laws gfa_laws distinct context confined cat c in
        let over : _ = get_elem?-drop (cells context cat) (place c) e in
        let failed : _ = shown.0 ∙ ap (λ v. if is_some v then ok else fail) over in rw failed refl
    drain-from (v ∷ rest) (suc fuel) c e range enough =
        let shown : _ = load_next-shows vm laws gfa_laws distinct context confined cat c in
        let (found, after, inside) = drop-cons (cells context cat) (place c) e in
        let went : _ = shown.0 ∙ ap (λ v. if is_some v then ok else fail) found in
        let read : _ =
          shown.1 ∙ ap (λ v. element 0 v ∷ element 1 v ∷ element 2 v ∷ element 3 v ∷ []) found in
        let loaded : Whole vm = (load_next vm cat c context).1 in
        let here : _ = loaded-IsInRange c range in
        let next : place (run vm context (body loaded) loaded) ≡ suc (place c) =
          quiet-place (body loaded) loaded (calm loaded) (idle loaded) here
          ∙ loaded-place c inside in
        let later : _ =
          drain-from rest fuel (run vm context (body loaded) loaded)
            (ap (λ n. drop n (cells context cat)) next ∙ after)
            (run-IsInRange vm laws context confined (body loaded) loaded here) (omega arith) in
        rw (went, later, read) refl

    -- After a reset of a category, a loop that loads its next cell until `CO` fails, and runs any
    -- program that neither loads nor resets the category after each load, ends, and shows every cell of
    -- the category, each once and in order. As many rounds as there are cells, and one for the load
    -- that fails, are enough. The program may depend on all that the core holds. The iterators are
    -- within the cells at first. The context is confined as those of operations are, cores and
    -- registers are taken to keep what is set in them, and `EA` to `ED` are different.
    pub drain-reset :
        (i : UsonicInstr) (site : vm.Site) (c : Whole vm) (fuel : ℕ)
        → effect i ≡ start_over cat
        → IsInRange context (core_of vm laws context c)
        → length (cells context cat) < fuel
        → drain vm context cat body fuel (exec vm (usonic i) site c context).1
          ≡ some (map elements (cells context cat))
    drain-reset i site c fuel resets range enough =
        let stands : _ =
          reset-position vm laws gfa_laws distinct context confined cat i site c resets in
        drain-from (cells context cat) fuel (exec vm (usonic i) site c context).1
          (ap (λ n. drop n (cells context cat)) stands)
          (exec-IsInRange vm laws context confined (usonic i) site c range) enough
