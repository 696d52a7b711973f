-- ===== src/Isa/Microcode/Load.antt =====
-- What one `load` does to the registers (src/isa/microcode.rs).
use ultrasonic.Prelude.{
  ℕ, ◌+◌, ◌%◌, ◌^◌, ◌≡◌, ◌≢◌, refl, sym, ◌∙◌, Option, none, some, arith, if◌then◌else◌, get_elem?,
  is_some,
}
use ultrasonic.Externals.{Externals, Registers, AreDistinct}
use ultrasonic.State.Value
use ultrasonic.State.Value.{StateValue, into_iter}
use ultrasonic.State.Value.RoundTrip.{get-into_iter}
use ultrasonic.Isa.Core.{IoCat, index, at, at-set_at, at-set_at_ne, GfaApi, GfaLaws, UsonicCore}
use ultrasonic.Isa.Context.{VmContext, state_value}
use ultrasonic.Isa.Microcode.{load, unwrap_or_default}

-- The element of a value that may be absent.
abbrev pub element : {Fe : Type 0} → ℕ → Option (StateValue Fe) → Option Fe
element pos none = none
element pos (some value) = get_elem? (into_iter value) pos

get-unwrap_or_default :
    {Fe : Type 0} (found : Option (StateValue Fe)) (pos : ℕ)
    → Value.get (unwrap_or_default found) pos ≡ element pos found
unfolding unwrap_or_default into_iter
get-unwrap_or_default none pos = get-into_iter StateValue.none pos
get-unwrap_or_default (some value) pos = get-into_iter value pos

-- The registers after four puts.
module _ {Fe RegE Gfa : Type 0} {regs : Registers RegE} {api : GfaApi Fe RegE Gfa}
    (distinct : AreDistinct regs) (laws : GfaLaws api) (g : Gfa) (a b c d : Option Fe) where
  open regs use {ea, eb, ec, ed}
  open laws use {get-put_self, get-put_ne}
  open distinct use {ea_eb, ea_ec, ea_ed, eb_ec, eb_ed, ec_ed}

  abbrev four : Gfa
  four = api.put (api.put (api.put (api.put g ea a) eb b) ec c) ed d

  four-ea : api.get four ea ≡ a
  four-ea =
      get-put_ne _ ed ea d (λ e. ea_ed (sym e))
      ∙ get-put_ne _ ec ea c (λ e. ea_ec (sym e))
      ∙ get-put_ne _ eb ea b (λ e. ea_eb (sym e))
      ∙ get-put_self g ea a

  four-eb : api.get four eb ≡ b
  four-eb =
      get-put_ne _ ed eb d (λ e. eb_ed (sym e))
      ∙ get-put_ne _ ec eb c (λ e. eb_ec (sym e))
      ∙ get-put_self _ eb b

  four-ec : api.get four ec ≡ c
  four-ec = get-put_ne _ ed ec d (λ e. ec_ed (sym e)) ∙ get-put_self _ ec c

  four-ne : (r : RegE) → r ≢ ea → r ≢ eb → r ≢ ec → r ≢ ed → api.get four r ≡ api.get g r
  four-ne r na nb nc nd =
      get-put_ne _ ed r d (λ e. nd (sym e))
      ∙ get-put_ne _ ec r c (λ e. nc (sym e))
      ∙ get-put_ne _ eb r b (λ e. nb (sym e))
      ∙ get-put_ne g ea r a (λ e. na (sym e))

module _ {E : Externals} {Gfa : Type 0} (regs : Registers E.RegE) (api : GfaApi E.Fe E.RegE Gfa)
    (core : UsonicCore Gfa) (cat : IoCat) (context : VmContext E) where
  abbrev pub current : Option (StateValue E.Fe)
  current = state_value context cat (at core.ui (index cat))

  abbrev loaded : UsonicCore Gfa
  loaded = (load regs api core cat context).1

  -- `load` sets `EA` to `ED` to the elements of the cell at the iterator, absent ones and those of
  -- an absent cell as `None`, and leaves every other register as it was.
  -- Registers are taken to keep what is put, and `EA` to `ED` are different.
  pub load-registers :
      AreDistinct regs
      → GfaLaws api
      → (api.get loaded.gfa regs.ea ≡ element 0 current)
        × (api.get loaded.gfa regs.eb ≡ element 1 current)
        × (api.get loaded.gfa regs.ec ≡ element 2 current)
        × (api.get loaded.gfa regs.ed ≡ element 3 current)
        × ((r : E.RegE)
            → r ≢ regs.ea
            → r ≢ regs.eb
            → r ≢ regs.ec
            → r ≢ regs.ed
            → api.get loaded.gfa r ≡ api.get core.gfa r)
  unfolding load
  load-registers distinct laws =
      let read = get-unwrap_or_default current in
      (
        four-ea distinct laws core.gfa _ _ _ _ ∙ read 0,
        four-eb distinct laws core.gfa _ _ _ _ ∙ read 1,
        four-ec distinct laws core.gfa _ _ _ _ ∙ read 2,
        laws.get-put_self _ regs.ed _ ∙ read 3,
        four-ne distinct laws core.gfa _ _ _ _,
      )

  -- `load` reports whether the iterator stood at a cell; then it moves on by one, modulo 2 ^ 16, and
  -- otherwise stays. The iterators of the other categories stay.
  pub load-iterators :
      ((load regs api core cat context).0 ≡ is_some current)
      × (at loaded.ui (index cat) ≡ (
          if is_some current
          then (at core.ui (index cat) + 1) % 2 ^ 16
          else at core.ui (index cat)))
      × ((other : IoCat) → cat ≢ other → at loaded.ui (index other) ≡ at core.ui (index other))
  unfolding load
  load-iterators =
      let i : ℕ = (at core.ui (index cat) + 1) % 2 ^ 16 in
      (
        refl,
        ground (arith, at-set_at core.ui cat i),
        λ other different. ground (arith, at-set_at_ne core.ui cat other i different),
      )
