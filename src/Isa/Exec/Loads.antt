-- ===== src/Isa/Exec/Loads.antt =====
-- Where an iterator stands after a program that mixes loads of all categories with any other
-- instructions (src/isa/exec.rs).
use mathlib.Core.Path.{subst}
use mathlib.Core.Logic.{ite, if_pos, if_neg}
use ultrasonic.Prelude.{
  ℕ, zero, suc, false, ◌+◌, ◌≤◌, ◌≡◌, ◌≢◌, refl, sym, ap, ◌∙◌, List, [], ◌∷◌, ◌++◌, arith, length,
  ltb, if◌then◌else◌, get_elem?, All, Bool-cases, inl, inr, none,
}
use ultrasonic.Externals.{Externals}
use ultrasonic.Isa.Instr.{ctrl, gfa, usonic, reserved}
use ultrasonic.Isa.Core.{IoCat, index, at, UsonicCore}
use ultrasonic.Isa.Context.{VmContext}
use ultrasonic.Isa.Microcode.Bounds.{IoCat-discrete}
use ultrasonic.Isa.Microcode.Cells.{IsConfined, IsInRange}
use ultrasonic.Isa.Microcode.Iteration.{get_elem?-length}
use ultrasonic.Isa.Machine.{Machine, CoreLaws}
use ultrasonic.Isa.Exec.Usonic.{Whole}
use ultrasonic.Isa.Exec.{AnyInstr, exec}
use ultrasonic.Isa.Exec.Steps.{
  Effect, check, take_next, start_over, Cursors, effect, view, size, step, exec-step,
}
use ultrasonic.Isa.Exec.Run.{run, core_of, exec-foreign, exec-IsInRange}

-- The loads of a category, one more for an effect that takes its next cell.
unfoldable pub counted : IoCat → Effect → ℕ → ℕ
counted cat (take_next other) n = ite (IoCat-discrete other cat) (suc n) n
counted cat (check other) n = n
counted cat (start_over other) n = n

-- A number, or the bound where that is less.
abbrev pub capped : ℕ → ℕ → ℕ
capped bound n = if ltb n bound then n else bound

-- A load of the category itself.
taken-capped :
    (bound : IoCat → ℕ) (s : Cursors) (cat : IoCat) (n : ℕ)
    → s.position cat ≤ bound cat
    → capped (bound cat) ((step bound (take_next cat) s).position cat + n)
      ≡ capped (bound cat) (s.position cat + counted cat (take_next cat) n)
unfolding step counted
taken-capped bound s cat n inside = elim (Bool-cases (ltb (s.position cat) (bound cat))) [
  | inl more ↦
      let shift : suc (s.position cat) + n ≡ s.position cat + suc n = omega arith in
      rw (more, if_pos (IoCat-discrete cat cat) refl)
        (rw (if_pos (IoCat-discrete cat cat) refl) (ap (capped (bound cat)) shift))
  | inr no_more ↦
      rw (no_more, if_pos (IoCat-discrete cat cat) refl) (ground (arith, no_more, inside))
]

step-capped :
    (bound : IoCat → ℕ) (e : Effect) (s : Cursors) (cat : IoCat) (n : ℕ)
    → e ≢ start_over cat
    → s.position cat ≤ bound cat
    → capped (bound cat) ((step bound e s).position cat + n)
      ≡ capped (bound cat) (s.position cat + counted cat e n)
unfolding step counted
step-capped bound (check other) s cat n calm inside = refl
step-capped bound (start_over other) s cat n calm inside = elim (IoCat-discrete other cat) [
  | yes same ↦ absurd (calm (ap start_over same))
  | no different ↦ rw (if_neg _ different) refl
]
step-capped bound (take_next other) s cat n calm inside = elim (IoCat-discrete other cat) [
  | yes same ↦
      subst
        (λ c.
          s.position c ≤ bound c
          → capped (bound c) ((step bound (take_next other) s).position c + n)
            ≡ capped (bound c) (s.position c + counted c (take_next other) n))
        same (taken-capped bound s other n) inside
  | no different ↦ elim (Bool-cases (ltb (s.position other) (bound other))) [
    | inl more ↦ rw (more, if_neg _ different) (rw (if_neg _ different) refl)
    | inr no_more ↦ rw (no_more, if_neg _ different) refl
  ]
]

-- The loads of a category in a program, and programs in which it is not reset.
unfoldable pub loads : {E : Externals} (vm : Machine E) → IoCat → List (AnyInstr vm × vm.Site) → ℕ
unfolding counted
loads vm cat [] = 0
loads vm cat ((usonic i, site) ∷ rest) = counted cat (effect i) (loads vm cat rest)
loads vm cat ((ctrl i, site) ∷ rest) = loads vm cat rest
loads vm cat ((gfa i, site) ∷ rest) = loads vm cat rest
loads vm cat ((reserved i, site) ∷ rest) = loads vm cat rest

abbrev pub IsCalm : {E : Externals} (vm : Machine E) → IoCat → AnyInstr vm → Type 0
IsCalm vm cat (usonic i) = effect i ≢ start_over cat
IsCalm vm cat (ctrl i) = Unit
IsCalm vm cat (gfa i) = Unit
IsCalm vm cat (reserved i) = Unit

abbrev pub NeverResets :
    {E : Externals} (vm : Machine E) → IoCat → List (AnyInstr vm × vm.Site) → Type 0
NeverResets vm cat program = All (λ p. IsCalm vm cat (p.0)) program

capped-le : (bound n : ℕ) → n ≤ bound → capped bound n ≡ n
capped-le bound n h = ground arith

get_elem?-beyond {ℓ} :
    {A : Type ℓ} (xs : List A) (n : ℕ) → ltb n (length xs) ≡ false → get_elem? xs n ≡ none
get_elem?-beyond [] n h = refl
get_elem?-beyond (x ∷ xs) zero h = ground (arith, h)
get_elem?-beyond (x ∷ xs) (suc n) h =
    let h' : ltb n (length xs) ≡ false = ground (arith, h) in get_elem?-beyond xs n h'

pub get_elem?-capped {ℓ} :
    {A : Type ℓ} (xs : List A) (n : ℕ) → get_elem? xs (capped (length xs) n) ≡ get_elem? xs n
get_elem?-capped xs n = elim (Bool-cases (ltb n (length xs))) [
  | inl inside ↦ rw inside refl
  | inr beyond ↦ rw beyond (get_elem?-length xs ∙ sym (get_elem?-beyond xs n beyond))
]

module _ {E : Externals} (vm : Machine E) (laws : CoreLaws vm.core) (context : VmContext E)
    (confined : IsConfined context) (cat : IoCat) where
  abbrev pub position : Whole vm → ℕ
  position c = at (core_of vm laws context c).ui (index cat)

  pub run-append :
      (before rest : List (AnyInstr vm × vm.Site)) (c : Whole vm)
      → run vm context (before ++ rest) c ≡ run vm context rest (run vm context before c)
  unfolding run
  run-append [] rest c = refl
  run-append ((i, site) ∷ before) rest c = run-append before rest (exec vm i site c context).1

  exec-capped :
      (i : AnyInstr vm) (site : vm.Site) (c : Whole vm) (rest : List (AnyInstr vm × vm.Site))
      → IsCalm vm cat i
      → IsInRange context (core_of vm laws context c)
      → capped (size context cat) (position (exec vm i site c context).1 + loads vm cat rest)
        ≡ capped (size context cat) (position c + loads vm cat ((i, site) ∷ rest))
  unfolding loads exec
  exec-capped (usonic i) site c rest calm range =
      let moves : _ =
        ap (λ (s : Cursors). s.position cat) (exec-step vm laws context confined i site c) in
      ap (λ n. capped (size context cat) (n + loads vm cat rest)) moves
      ∙ step-capped (size context) (effect i) (view vm c) cat (loads vm cat rest) calm (range cat)
  exec-capped (ctrl i) site c rest calm range =
      ap
        (λ (x : UsonicCore vm.Gfa).
          capped (size context cat) (at x.ui (index cat) + loads vm cat rest))
        ((exec-foreign vm laws context c site).0 i)
  exec-capped (reserved i) site c rest calm range =
      ap
        (λ (x : UsonicCore vm.Gfa).
          capped (size context cat) (at x.ui (index cat) + loads vm cat rest))
        ((exec-foreign vm laws context c site).1 i)
  exec-capped (gfa i) site c rest calm range =
      ap
        (λ (x : UsonicCore vm.Gfa).
          capped (size context cat) (at x.ui (index cat) + loads vm cat rest))
        ((exec-foreign vm laws context c site).2 i)

  pub run-capped :
      (program : List (AnyInstr vm × vm.Site)) (c : Whole vm)
      → NeverResets vm cat program
      → IsInRange context (core_of vm laws context c)
      → position (run vm context program c)
        ≡ capped (size context cat) (position c + loads vm cat program)
  unfolding run loads
  run-capped [] c calm range = ground (arith, range cat)
  run-capped ((i, site) ∷ rest) c calm range =
      run-capped rest (exec vm i site c context).1 calm.1
        (exec-IsInRange vm laws context confined i site c range)
      ∙ exec-capped i site c rest calm.0 range
