-- ===== src/Isa/Microcode/Bounds.antt =====
-- The range of the iterators `UI` (src/isa/microcode.rs): in the context of an operation they stay
-- among the cells of their categories, so the `u16` never wraps.
use mathlib.Core.Path.{subst}
use ultrasonic.Prelude.{◌≤◌, ◌≡◌, ◌≢◌, arith, length}
use ultrasonic.Externals.{Externals, Registers}
use ultrasonic.Isa.Core.{IoCat, index, at, GfaApi, UsonicCore, at-set_at, at-set_at_ne}
use ultrasonic.Isa.Context.{VmContext}
use ultrasonic.Isa.Microcode.{has_data, load, reset}
use ultrasonic.Isa.Microcode.Load.{load-iterators}
use ultrasonic.Isa.Microcode.Cells.{
  cells, state_value-cells, is_some-get_elem?, IsConfined, IsInRange,
}

unfoldable pub IoCat-discrete : Discrete IoCat
IoCat-discrete = hlevel

module _ {E : Externals} {Gfa : Type 0} (context : VmContext E) (core after : UsonicCore Gfa)
    (cat : IoCat) where
  -- A step that moves one iterator only, and keeps it in range, keeps all in range.
  one_moves :
      at after.ui (index cat) ≤ length (cells context cat)
      → ((other : IoCat) → cat ≢ other → at after.ui (index other) ≡ at core.ui (index other))
      → IsInRange context core
      → IsInRange context after
  one_moves here elsewhere range other = elim (IoCat-discrete cat other) [
    | yes same ↦ subst (λ c. at after.ui (index c) ≤ length (cells context c)) same here
    | no different ↦ omega (arith, elsewhere other different, range other)
  ]

module _ {E : Externals} {Gfa : Type 0} (regs : Registers E.RegE) (api : GfaApi E.Fe E.RegE Gfa)
    (context : VmContext E) where
  -- `load` leaves every iterator within its category.
  pub load-IsInRange :
      (core : UsonicCore Gfa) (cat : IoCat)
      → IsConfined context
      → IsInRange context core
      → IsInRange context (load regs api core cat context).1
  load-IsInRange core cat confined range =
      let moves : _ = load-iterators regs api core cat context in
      one_moves context core (load regs api core cat context).1 cat
        (ground (
          arith,
          moves.1,
          state_value-cells context cat (at core.ui (index cat)),
          is_some-get_elem? (cells context cat) (at core.ui (index cat)),
          confined cat,
          range cat,
        ))
        moves.2 range

module _ {E : Externals} {Gfa : Type 0} (context : VmContext E) where
  pub reset-IsInRange :
      (core : UsonicCore Gfa) (cat : IoCat)
      → IsInRange context core
      → IsInRange context (reset core cat)
  unfolding reset
  reset-IsInRange core cat range =
      one_moves context core (reset core cat) cat (omega (arith, at-set_at core.ui cat 0))
        (λ other different. at-set_at_ne core.ui cat other 0 different) range

  pub has_data-IsInRange :
      (core : UsonicCore Gfa) (cat : IoCat)
      → IsInRange context core
      → IsInRange context (has_data core cat context).1
  unfolding has_data
  has_data-IsInRange core cat range = range
