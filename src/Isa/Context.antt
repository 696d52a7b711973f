-- ===== src/Isa/Context.antt =====
-- `VmContext` of src/isa/exec.rs: the operation data that a script iterates over.
use ultrasonic.Prelude.{ℕ, Option, List, get_elem?}
use mathlib.Core.Option
use ultrasonic.Externals.{Externals}
use ultrasonic.State.{StateCell, StateData}
use ultrasonic.State.Value.{StateValue}
use ultrasonic.Isa.Core.{Io, input, output, Mem, read_once, append_only, IoCat}

pub record VmContext (E : Externals) : Type 0 where
  pub destructible_input : List (StateValue E.Fe)
  pub immutable_input : List (StateValue E.Fe)
  pub destructible_output : List (StateCell E)
  pub immutable_output : List (StateData E.Fe)

module _ {E : Externals} where
  -- The arms of the `match` on the category.
  unfoldable pub select : VmContext E → Io → Mem → ℕ → Option (StateValue E.Fe)
  select context input read_once index = get_elem? context.destructible_input index
  select context input append_only index = get_elem? context.immutable_input index
  select context output read_once index =
      Option.map (λ cell. cell.«data») (get_elem? context.destructible_output index)
  select context output append_only index =
      Option.map (λ cell. cell.value) (get_elem? context.immutable_output index)

  -- `VmContext::state_value`
  unfoldable pub state_value : VmContext E → IoCat → ℕ → Option (StateValue E.Fe)
  unfolding select
  state_value context cat index = select context cat.io cat.mem index
