-- ===== src/Isa/Microcode/Cells.antt =====
-- The cells of each category of a `VmContext` (src/isa/exec.rs), and iterators that stay among them.
use mathlib.Core.Option
use ultrasonic.Prelude.{
  ℕ, zero, suc, ◌^◌, ◌≤◌, ◌<◌, ◌≡◌, refl, List, [], ◌∷◌, map, arith, get_elem?, length, is_some,
  ltb,
}
use ultrasonic.Externals.{Externals}
use ultrasonic.State.Value.{StateValue}
use ultrasonic.Isa.Core.{
  Io, input, output, Mem, read_once, append_only, IoCat, index, at, UsonicCore,
}
use ultrasonic.Isa.Context.{VmContext, select, state_value}

get_elem?-map :
    {A B : Type 0} (f : A → B) (xs : List A) (i : ℕ)
    → Option.map f (get_elem? xs i) ≡ get_elem? (map f xs) i
get_elem?-map f [] i = refl
get_elem?-map f (x ∷ xs) zero = refl
get_elem?-map f (x ∷ xs) (suc i) = get_elem?-map f xs i

pub is_some-get_elem? {ℓ} :
    {A : Type ℓ} (xs : List A) (i : ℕ) → is_some (get_elem? xs i) ≡ ltb i (length xs)
is_some-get_elem? [] i = ground arith
is_some-get_elem? (x ∷ xs) zero = ground arith
is_some-get_elem? (x ∷ xs) (suc i) = ground (arith, is_some-get_elem? xs i)

-- The values of the cells of a category, in the order of the operation.
abbrev cells_of : {E : Externals} → VmContext E → Io → Mem → List (StateValue E.Fe)
cells_of context input read_once = context.destructible_input
cells_of context input append_only = context.immutable_input
cells_of context output read_once = map (λ cell. cell.«data») context.destructible_output
cells_of context output append_only = map (λ cell. cell.value) context.immutable_output

abbrev pub cells : {E : Externals} → VmContext E → IoCat → List (StateValue E.Fe)
cells context cat = cells_of context cat.io cat.mem

module _ {E : Externals} (context : VmContext E) where
  select-cells_of :
      (io : Io) (mem : Mem) (i : ℕ)
      → select context io mem i ≡ get_elem? (cells_of context io mem) i
  unfolding select
  select-cells_of input read_once i = refl
  select-cells_of input append_only i = refl
  select-cells_of output read_once i = get_elem?-map _ context.destructible_output i
  select-cells_of output append_only i = get_elem?-map _ context.immutable_output i

  pub state_value-cells :
      (cat : IoCat) (i : ℕ) → state_value context cat i ≡ get_elem? (cells context cat) i
  unfolding state_value
  state_value-cells cat i = select-cells_of cat.io cat.mem i

-- `SmallVec` holds at most 2 ^ 16 - 1 items.
abbrev pub IsConfined : {E : Externals} → VmContext E → Type 0
IsConfined context = (cat : IoCat) → length (cells context cat) < 2 ^ 16

-- No iterator stands beyond the end of its category.
abbrev pub IsInRange : {E : Externals} {Gfa : Type 0} → VmContext E → UsonicCore Gfa → Type 0
IsInRange context core = (cat : IoCat) → at core.ui (index cat) ≤ length (cells context cat)
