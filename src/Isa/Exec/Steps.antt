-- ===== src/Isa/Exec/Steps.antt =====
-- The USONIC instructions against an abstract machine of one position for each category, as the
-- comments of src/isa/instr.rs describe them.
use mathlib.Core.Path.{fun_ext, subst}
use mathlib.Core.Logic.{ite, if_pos, if_neg}
use ultrasonic.Prelude.{
  ℕ, suc, ◌≤◌, ◌≡◌, ◌≢◌, sym, ap, ◌∙◌, Bool, arith, length, ltb, if◌then◌else◌, is_some, Bool-cases,
  ltb→lt, inl, inr,
}
use ultrasonic.Externals.{Externals, Status, ok, fail}
use ultrasonic.Isa.Instr.{
  UsonicInstr, ck_nx_i_ro, ck_nx_i_ao, ck_nx_o_ro, ck_nx_o_ao, ld_i_ro, ld_i_ao, ld_o_ro, ld_o_ao,
  rst_i_ro, rst_i_ao, rst_o_ro, rst_o_ao,
}
use ultrasonic.Isa.Core.{
  IoCat, in_ro, in_ao, out_ro, out_ao, index, at, UsonicCore, at-set_at, at-set_at_ne,
}
use ultrasonic.Isa.Context.{VmContext, state_value}
use ultrasonic.Isa.Microcode.{has_data, reset}
use ultrasonic.Isa.Microcode.Load.{load-iterators}
use ultrasonic.Isa.Microcode.Cells.{cells, state_value-cells, is_some-get_elem?, IsConfined}
use ultrasonic.Isa.Microcode.Bounds.{IoCat-discrete}
use ultrasonic.Isa.Machine.{Machine, CoreLaws}
use ultrasonic.Isa.Exec.Usonic.{Whole, exec, flag, quiet, check_next, load_next, restart}

-- What an instruction is for: to look for a next cell, to take it, or to start over.
pub data Effect : Type 0 where
  check take_next start_over : IoCat → Effect

abbrev pub effect : UsonicInstr → Effect
effect ck_nx_i_ro = check in_ro
effect ck_nx_i_ao = check in_ao
effect ck_nx_o_ro = check out_ro
effect ck_nx_o_ao = check out_ao
effect ld_i_ro = take_next in_ro
effect ld_i_ao = take_next in_ao
effect ld_o_ro = take_next out_ro
effect ld_o_ao = take_next out_ao
effect rst_i_ro = start_over in_ro
effect rst_i_ao = start_over in_ao
effect rst_o_ro = start_over out_ro
effect rst_o_ao = start_over out_ao

-- A position in each category, and the flag `CO`.
pub record Cursors : Type 0 where
  pub position : IoCat → ℕ
  pub flagged : Status

abbrev pub moved : (IoCat → ℕ) → IoCat → ℕ → IoCat → ℕ
moved position cat to other = ite (IoCat-discrete cat other) to (position other)

-- One step of the abstract machine over categories of the given lengths.
unfoldable pub step : (IoCat → ℕ) → Effect → Cursors → Cursors
step size (check cat) s = record s {
  flagged = if ltb (s.position cat) (size cat) then ok else fail;
}
step size (take_next cat) s =
    if ltb (s.position cat) (size cat)
    then record { position = moved s.position cat (suc (s.position cat)); flagged = ok }
    else record s { flagged = fail }
step size (start_over cat) s = record s { position = moved s.position cat 0 }

-- What the abstract machine sees of the core.
abbrev pub view : {E : Externals} (vm : Machine E) → Whole vm → Cursors
view vm c = record {
  position = λ cat. at (vm.core.cx _ c).ui (index cat);
  flagged = vm.core.co _ c;
}

abbrev pub size : {E : Externals} → VmContext E → IoCat → ℕ
size context cat = length (cells context cat)

moved_lem :
    (before after : IoCat → ℕ) (cat : IoCat) (to : ℕ)
    → after cat ≡ to
    → ((other : IoCat) → cat ≢ other → after other ≡ before other)
    → after ≡ moved before cat to
moved_lem before after cat to here elsewhere = fun_ext λ other. elim (IoCat-discrete cat other) [
  | yes same ↦ rw (if_pos _ same) (ap after (sym same) ∙ here)
  | no different ↦ rw (if_neg _ different) (elsewhere other different)
]

stay_lem :
    (before after : IoCat → ℕ) (cat : IoCat)
    → after cat ≡ before cat
    → ((other : IoCat) → cat ≢ other → after other ≡ before other)
    → after ≡ before
stay_lem before after cat here elsewhere = fun_ext λ other. elim (IoCat-discrete cat other) [
  | yes same ↦ ap after (sym same) ∙ here ∙ ap before same
  | no different ↦ elsewhere other different
]

-- Positions stay within bounds that a new position meets.
moved-le :
    (position bound : IoCat → ℕ) (cat : IoCat) (to : ℕ)
    → to ≤ bound cat
    → ((other : IoCat) → position other ≤ bound other)
    → (other : IoCat) → moved position cat to other ≤ bound other
moved-le position bound cat to here h other = elim (IoCat-discrete cat other) [
  | yes same ↦ rw (if_pos _ same) (subst (λ c. to ≤ bound c) same here)
  | no different ↦ rw (if_neg _ different) (h other)
]

module _ {E : Externals} (vm : Machine E) (laws : CoreLaws vm.core) (context : VmContext E) where
  found :
      (c : Whole vm) (cat : IoCat)
      → is_some (state_value context cat ((view vm c).position cat))
        ≡ ltb ((view vm c).position cat) (size context cat)
  found c cat =
      ap is_some (state_value-cells context cat _) ∙ is_some-get_elem? (cells context cat) _

  -- A core that was replaced and flagged.
  view-flag :
      (c : Whole vm) (b : Bool) (x : UsonicCore vm.Gfa)
      → view vm (flag vm c (b, x)).1
        ≡ record { position = λ cat. at x.ui (index cat); flagged = if b then ok else fail }
  unfolding flag
  view-flag c b x =
      let kept : _ =
        laws.cx-set_co _ (vm.core.set_cx _ c x) (if b then ok else fail) ∙ laws.cx-set_cx _ c x in
      let set : _ = laws.co-set_co _ (vm.core.set_cx _ c x) (if b then ok else fail) in
      λ i. record { position = λ cat. at (kept i).ui (index cat); flagged = set i }

  check_next_lem :
      (cat : IoCat) (c : Whole vm)
      → view vm (check_next vm cat c context).1 ≡ step (size context) (check cat) (view vm c)
  unfolding check_next has_data step
  check_next_lem cat c =
      view-flag c _ (vm.core.cx _ c)
      ∙ ap (λ b. record { position = (view vm c).position; flagged = if b then ok else fail })
          (found c cat)

  pub load_next_lem :
      IsConfined context
      → (cat : IoCat) (c : Whole vm)
      → view vm (load_next vm cat c context).1 ≡ step (size context) (take_next cat) (view vm c)
  unfolding load_next step
  load_next_lem confined cat c =
      let core : UsonicCore vm.Gfa = vm.core.cx _ c in
      let moves : _ = load-iterators vm.regs vm.gfa core cat context in
      let reported : _ = moves.0 ∙ found c cat in
      view-flag c _ _ ∙ elim (Bool-cases (ltb (at core.ui (index cat)) (size context cat))) [
        | inl inside ↦
            let to : _ =
              moved_lem _ _ cat (suc (at core.ui (index cat)))
                (ground (arith, moves.1, found c cat, inside, confined cat)) moves.2 in
            let flagged : _ = ap (λ b. if b then ok else fail) (reported ∙ inside) in
            rw inside (λ i. record { position = to i; flagged = flagged i })
        | inr outside ↦
            let to : _ = stay_lem _ _ cat (ground (arith, moves.1, found c cat, outside)) moves.2 in
            let flagged : _ = ap (λ b. if b then ok else fail) (reported ∙ outside) in
            rw outside (λ i. record { position = to i; flagged = flagged i })
      ]

  restart_lem :
      (cat : IoCat) (c : Whole vm)
      → view vm (restart vm cat c).1 ≡ step (size context) (start_over cat) (view vm c)
  unfolding restart quiet reset step
  restart_lem cat c =
      let x : UsonicCore vm.Gfa = reset (vm.core.cx _ c) cat in
      let kept : _ = laws.cx-set_cx _ c x in
      let same : _ = laws.co-set_cx _ c x in
      (λ i. record { position = λ cat. at (kept i).ui (index cat); flagged = same i })
      ∙ ap (λ p. record { position = p; flagged = vm.core.co _ c })
          (moved_lem _ _ cat 0 (at-set_at _ cat 0)
            (λ other different. at-set_at_ne _ cat other 0 different))

  -- Every USONIC instruction is a step of the abstract machine: it looks, takes or starts over in
  -- its own category and moves no other position; looking and taking set `CO` from whether a cell
  -- was left, and starting over leaves it. The context is confined as those of operations are.
  -- A core is taken to keep what is set in it.
  pub exec-step :
      IsConfined context
      → (instr : UsonicInstr) (site : vm.Site) (c : Whole vm)
      → view vm (exec vm instr site c context).1 ≡ step (size context) (effect instr) (view vm c)
  unfolding exec
  exec-step confined ck_nx_i_ro site c = check_next_lem in_ro c
  exec-step confined ck_nx_i_ao site c = check_next_lem in_ao c
  exec-step confined ck_nx_o_ro site c = check_next_lem out_ro c
  exec-step confined ck_nx_o_ao site c = check_next_lem out_ao c
  exec-step confined ld_i_ro site c = load_next_lem confined in_ro c
  exec-step confined ld_i_ao site c = load_next_lem confined in_ao c
  exec-step confined ld_o_ro site c = load_next_lem confined out_ro c
  exec-step confined ld_o_ao site c = load_next_lem confined out_ao c
  exec-step confined rst_i_ro site c = restart_lem in_ro c
  exec-step confined rst_i_ao site c = restart_lem in_ao c
  exec-step confined rst_o_ro site c = restart_lem out_ro c
  exec-step confined rst_o_ao site c = restart_lem out_ao c

pub step-position_le :
    (size : IoCat → ℕ) (e : Effect) (s : Cursors)
    → ((cat : IoCat) → s.position cat ≤ size cat)
    → (cat : IoCat) → (step size e s).position cat ≤ size cat
unfolding step
step-position_le size (check at_cat) s h cat = h cat
step-position_le size (take_next at_cat) s h cat =
    elim (Bool-cases (ltb (s.position at_cat) (size at_cat))) [
      | inl inside ↦ rw inside (moved-le s.position size at_cat _ (ltb→lt _ _ inside) h cat)
      | inr outside ↦ rw outside (h cat)
    ]
step-position_le size (start_over at_cat) s h cat =
    moved-le s.position size at_cat 0 (omega arith) h cat
