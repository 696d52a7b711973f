-- ===== src/Isa/Exec/Debug.antt =====
-- Builds that check overflow (src/isa/microcode.rs): there an addition to an iterator panics where one
-- of a release build wraps.
use ultrasonic.Prelude.{
  ℕ, ◌+◌, ◌%◌, ◌^◌, ◌≡◌, refl, ap, ◌∙◌, Bool, true, false, List, [], ◌∷◌, arith, length,
  if◌then◌else◌, is_some, ltb, Partial, done, panicked, Bool-cases, inl, inr,
}
use ultrasonic.Externals.{Externals, Registers}
use ultrasonic.State.Value
use ultrasonic.Isa.Instr.{
  UsonicInstr, ck_nx_i_ro, ck_nx_i_ao, ck_nx_o_ro, ck_nx_o_ao, ld_i_ro, ld_i_ao, ld_o_ro, ld_o_ao,
  rst_i_ro, rst_i_ao, rst_o_ro, rst_o_ao, ctrl, gfa, usonic, reserved,
}
use ultrasonic.Isa.Core.{IoCat, in_ro, in_ao, out_ro, out_ao, index, at, set_at, GfaApi, UsonicCore}
use ultrasonic.Isa.Context.{VmContext, state_value}
use ultrasonic.Isa.Microcode.{load, unwrap_or_default}
use ultrasonic.Isa.Microcode.Cells.{cells, state_value-cells, is_some-get_elem?, IsConfined}
use ultrasonic.Isa.Machine.{Machine}
use ultrasonic.Isa.Exec.Usonic
use ultrasonic.Isa.Exec.Usonic.{Whole, flag, load_next}
use ultrasonic.Isa.Exec.{AnyInstr, exec}
use ultrasonic.Isa.Exec.Run.{run}

-- `x + y` on `u16`
add_u16 : ℕ → ℕ → Partial ℕ
add_u16 x y = if ltb (x + y) (2 ^ 16) then done (x + y) else panicked

-- The end of `UsonicCore::load`, on the sum that was to be the next position.
moved_on :
    {Gfa : Type 0} → UsonicCore Gfa → IoCat → Gfa → Partial ℕ → Partial (Bool × UsonicCore Gfa)
moved_on core cat gfa₄ panicked = panicked
moved_on core cat gfa₄ (done next) =
    done (true, record { ui = set_at core.ui (index cat) next; gfa = gfa₄ })

module _ {E : Externals} {Gfa : Type 0} (regs : Registers E.RegE)
    (api : GfaApi E.Fe E.RegE Gfa) where
  open regs use {ea, eb, ec, ed}

  -- `UsonicCore::load` where overflow is checked
  unfoldable pub checked_load :
      UsonicCore Gfa → IoCat → VmContext E → Partial (Bool × UsonicCore Gfa)
  unfolding add_u16 moved_on
  checked_load core cat context =
      let found = state_value context cat (at core.ui (index cat)) in
      let value = unwrap_or_default found in
      let gfa₁ = api.put core.gfa ea (Value.get value 0) in
      let gfa₂ = api.put gfa₁ eb (Value.get value 1) in
      let gfa₃ = api.put gfa₂ ec (Value.get value 2) in
      let gfa₄ = api.put gfa₃ ed (Value.get value 3) in
      if is_some found
      then moved_on core cat gfa₄ (add_u16 (at core.ui (index cat)) 1)
      else done (false, record { ui = core.ui; gfa = gfa₄ })

  -- It is `load`, with no panic: the iterator moves only past a cell, and there are less than 2 ^ 16.
  checked_load_lem :
      (core : UsonicCore Gfa) (cat : IoCat) (context : VmContext E)
      → IsConfined context
      → checked_load core cat context ≡ done (load regs api core cat context)
  unfolding checked_load add_u16 moved_on load
  checked_load_lem core cat context confined =
      let i : ℕ = at core.ui (index cat) in
      let there : is_some (state_value context cat i) ≡ ltb i (length (cells context cat)) =
        ap is_some (state_value-cells context cat i) ∙ is_some-get_elem? (cells context cat) i in
      elim (Bool-cases (ltb i (length (cells context cat)))) [
        | inl inside ↦
            let fits : ltb (i + 1) (2 ^ 16) ≡ true = ground (arith, inside, confined cat) in
            let same : (i + 1) % 2 ^ 16 ≡ i + 1 = ground (arith, inside, confined cat) in
            rw (there ∙ inside, fits, same) refl
        | inr outside ↦ rw (there ∙ outside) refl
      ]

module _ {E : Externals} (vm : Machine E) (context : VmContext E) where
  -- The end of `exec`, after a load that may have panicked.
  checked_flag : Whole vm → Partial (Bool × UsonicCore vm.Gfa) → Partial (vm.Step × Whole vm)
  checked_flag c panicked = panicked
  checked_flag c (done loaded) = done (flag vm c loaded)

  checked_load_next : IoCat → Whole vm → Partial (vm.Step × Whole vm)
  checked_load_next cat c =
      checked_flag c (checked_load vm.regs vm.gfa (vm.core.cx _ c) cat context)

  -- `UsonicInstr::exec` where overflow is checked: loads are all that can overflow.
  unfoldable pub checked_exec : UsonicInstr → vm.Site → Whole vm → Partial (vm.Step × Whole vm)
  unfolding checked_flag checked_load_next
  checked_exec ld_i_ro site c = checked_load_next in_ro c
  checked_exec ld_i_ao site c = checked_load_next in_ao c
  checked_exec ld_o_ro site c = checked_load_next out_ro c
  checked_exec ld_o_ao site c = checked_load_next out_ao c
  checked_exec ck_nx_i_ro site c = done (Usonic.exec vm ck_nx_i_ro site c context)
  checked_exec ck_nx_i_ao site c = done (Usonic.exec vm ck_nx_i_ao site c context)
  checked_exec ck_nx_o_ro site c = done (Usonic.exec vm ck_nx_o_ro site c context)
  checked_exec ck_nx_o_ao site c = done (Usonic.exec vm ck_nx_o_ao site c context)
  checked_exec rst_i_ro site c = done (Usonic.exec vm rst_i_ro site c context)
  checked_exec rst_i_ao site c = done (Usonic.exec vm rst_i_ao site c context)
  checked_exec rst_o_ro site c = done (Usonic.exec vm rst_o_ro site c context)
  checked_exec rst_o_ao site c = done (Usonic.exec vm rst_o_ao site c context)

  -- Programs, which a panic ends.
  proceed : (Whole vm → Partial (Whole vm)) → Partial (vm.Step × Whole vm) → Partial (Whole vm)
  proceed rest panicked = panicked
  proceed rest (done (step, c)) = rest c

  unfoldable pub checked_run : List (AnyInstr vm × vm.Site) → Whole vm → Partial (Whole vm)
  unfolding proceed
  checked_run [] c = done c
  checked_run ((usonic instr, site) ∷ rest) c =
      proceed (checked_run rest) (checked_exec instr site c)
  checked_run ((ctrl instr, site) ∷ rest) c =
      checked_run rest (exec vm (ctrl instr) site c context).1
  checked_run ((gfa instr, site) ∷ rest) c = checked_run rest (exec vm (gfa instr) site c context).1
  checked_run ((reserved instr, site) ∷ rest) c =
      checked_run rest (exec vm (reserved instr) site c context).1

module _ {E : Externals} (vm : Machine E) (context : VmContext E)
    (confined : IsConfined context) where
  checked_load_next_lem :
      (cat : IoCat) (c : Whole vm)
      → checked_load_next vm context cat c ≡ done (load_next vm cat c context)
  unfolding checked_load_next checked_flag load_next
  checked_load_next_lem cat c =
      ap (checked_flag vm context c)
        (checked_load_lem vm.regs vm.gfa (vm.core.cx _ c) cat context confined)

  checked_exec_lem :
      (instr : UsonicInstr) (site : vm.Site) (c : Whole vm)
      → checked_exec vm context instr site c ≡ done (Usonic.exec vm instr site c context)
  unfolding checked_exec Usonic.exec
  checked_exec_lem ld_i_ro site c = checked_load_next_lem in_ro c
  checked_exec_lem ld_i_ao site c = checked_load_next_lem in_ao c
  checked_exec_lem ld_o_ro site c = checked_load_next_lem out_ro c
  checked_exec_lem ld_o_ao site c = checked_load_next_lem out_ao c
  checked_exec_lem ck_nx_i_ro site c = refl
  checked_exec_lem ck_nx_i_ao site c = refl
  checked_exec_lem ck_nx_o_ro site c = refl
  checked_exec_lem ck_nx_o_ao site c = refl
  checked_exec_lem rst_i_ro site c = refl
  checked_exec_lem rst_i_ao site c = refl
  checked_exec_lem rst_o_ro site c = refl
  checked_exec_lem rst_o_ao site c = refl

  -- Where overflow is checked no program panics by it, from any state of the core, and every program
  -- does what it does where additions wrap. The context is confined as those of operations are.
  pub checked_run_lem :
      (program : List (AnyInstr vm × vm.Site)) (c : Whole vm)
      → checked_run vm context program c ≡ done (run vm context program c)
  unfolding checked_run run proceed exec
  checked_run_lem [] c = refl
  checked_run_lem ((usonic instr, site) ∷ rest) c =
      ap (proceed vm context (checked_run vm context rest)) (checked_exec_lem instr site c)
      ∙ checked_run_lem rest (Usonic.exec vm instr site c context).1
  checked_run_lem ((ctrl instr, site) ∷ rest) c =
      checked_run_lem rest (exec vm (ctrl instr) site c context).1
  checked_run_lem ((gfa instr, site) ∷ rest) c =
      checked_run_lem rest (exec vm (gfa instr) site c context).1
  checked_run_lem ((reserved instr, site) ∷ rest) c =
      checked_run_lem rest (exec vm (reserved instr) site c context).1
