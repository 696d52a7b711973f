-- ===== src/Isa/Microcode.antt =====
-- src/isa/microcode.rs: what an instruction does to the core. `UI` is a `u16`; the addition wraps, as
-- in a release build, and `Microcode.Bounds` has where it cannot.
pub mod Load
pub mod Cells
pub mod Iteration
pub mod Bounds
use ultrasonic.Prelude.{
  ℕ, ◌+◌, ◌%◌, ◌^◌, Bool, true, false, Option, none, some, if◌then◌else◌, is_some,
}
use ultrasonic.Externals.{Externals, Registers}
use ultrasonic.State.Value
use ultrasonic.State.Value.{StateValue}
use ultrasonic.Isa.Core.{IoCat, index, at, set_at, GfaApi, UsonicCore}
use ultrasonic.Isa.Context.{VmContext, state_value}

-- `Option::unwrap_or_default`: `StateValue::None` is the default.
pub unwrap_or_default : {Fe : Type 0} → Option (StateValue Fe) → StateValue Fe
unwrap_or_default none = StateValue.none
unwrap_or_default (some value) = value

-- `UsonicCore::has_data`
unfoldable pub has_data :
    {E : Externals} {Gfa : Type 0} → UsonicCore Gfa → IoCat → VmContext E → Bool × UsonicCore Gfa
has_data core cat context =
    let found = state_value context cat (at core.ui (index cat)) in (is_some found, core)

module _ {E : Externals} {Gfa : Type 0} (regs : Registers E.RegE)
    (api : GfaApi E.Fe E.RegE Gfa) where
  open regs use {ea, eb, ec, ed}

  -- `UsonicCore::load`
  unfoldable pub load : UsonicCore Gfa → IoCat → VmContext E → Bool × UsonicCore Gfa
  unfolding unwrap_or_default
  load core cat context =
      let found = state_value context cat (at core.ui (index cat)) in
      let co = is_some found in
      let value = unwrap_or_default found in
      let gfa₁ = api.put core.gfa ea (Value.get value 0) in
      let gfa₂ = api.put gfa₁ eb (Value.get value 1) in
      let gfa₃ = api.put gfa₂ ec (Value.get value 2) in
      let gfa₄ = api.put gfa₃ ed (Value.get value 3) in
      let next = (at core.ui (index cat) + 1) % 2 ^ 16 in
      (co, record { ui = if co then set_at core.ui (index cat) next else core.ui; gfa = gfa₄ })

-- `UsonicCore::reset`
unfoldable pub reset : {Gfa : Type 0} → UsonicCore Gfa → IoCat → UsonicCore Gfa
reset core cat = record core { ui = set_at core.ui (index cat) 0 }
