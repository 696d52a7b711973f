-- ===== src/Codex/Script.antt =====
-- What scripts see of a verified operation: `Codex::verify` (src/codex.rs) and the instructions of
-- src/isa/exec.rs together.
use mathlib.Core.List.{map-map}
use ultrasonic.Prelude.{
  ℕ, ◌<◌, ◌≡◌, refl, sym, ap, ap₂, ◌∙◌, Option, none, some, List, [], ◌∷◌, map, done, drop, arith,
}
use ultrasonic.Externals.{Externals, Status, AreDistinct}
use ultrasonic.State.{StateCell, StateData}
use ultrasonic.State.Value.{StateValue}
use ultrasonic.Ids.{ContractId}
use ultrasonic.Operation.{Operation, VerifiedOperation}
use ultrasonic.Isa.Core.{
  Io, input, output, Mem, read_once, append_only, IoCat, in_ro, in_ao, index, at, GfaLaws,
}
use ultrasonic.Isa.Context.{VmContext}
use ultrasonic.Isa.Microcode.Load.{element}
use ultrasonic.Isa.Microcode.Cells
use ultrasonic.Isa.Microcode.Cells.{cells, IsInRange}
use ultrasonic.Isa.Machine.{Machine, CoreLaws}
use ultrasonic.Isa.Exec.{AnyInstr}
use ultrasonic.Isa.Exec.Usonic.{Whole}
use ultrasonic.Isa.Exec.Loads.{loads, NeverResets}
use ultrasonic.Isa.Exec.Drain.{drain, drain-from}
use ultrasonic.Codex.{Codex, Memory, LibRepo, Runtime}
use ultrasonic.Codex.Outcome.{ok}
use ultrasonic.Codex.Verify.{verify, resolver, lookup, context_of}
use ultrasonic.Codex.Spec.{ResetLaws}
use ultrasonic.Codex.Correct.{IsConfined, verify-ok_iff}
use ultrasonic.Codex.Context.{
  OutputsFit, destructible_value, context-fits, Accepts-values, Reads-values,
}

-- The four elements of a cell that may be absent, as `EA` to `ED` show them.
abbrev pub shown : {Fe : Type 0} → Option (StateValue Fe) → List (Option Fe)
shown found = element 0 found ∷ element 1 found ∷ element 2 found ∷ element 3 found ∷ []

-- The values that are there.
abbrev pub collected {ℓ} : {A : Type ℓ} → List (Option A) → List A
collected [] = []
collected (none ∷ rest) = collected rest
collected (some value ∷ rest) = value ∷ collected rest

collected-some {ℓ} : {A : Type ℓ} (values : List A) → collected (map some values) ≡ values
collected-some [] = refl
collected-some (value ∷ rest) = ap (λ l. value ∷ l) (collected-some rest)

module _ {E : Externals} (runtime : Runtime E) (repo : LibRepo E) (codex : Codex E)
    (memory : Memory E) (operation : Operation E) where
  -- The cells of the operation in a category: those that it names, as the memory has them, and those
  -- that it makes.
  abbrev pub named_by : Io → Mem → List (Option (StateValue E.Fe))
  named_by input read_once =
      map (destructible_value runtime repo codex memory) operation.destructible_in
  named_by input append_only = map memory.immutable operation.immutable_in
  named_by output read_once = map (λ cell. some cell.«data») operation.destructible_out
  named_by output append_only = map (λ cell. some cell.value) operation.immutable_out

  abbrev pub named : IoCat → List (Option (StateValue E.Fe))
  named cat = named_by cat.io cat.mem

  -- The one context that the operation is verified on: of its inputs what the memory has at their
  -- addresses, and its outputs.
  abbrev pub seen : VmContext E
  seen = record {
    destructible_input = collected (named in_ro);
    immutable_input = collected (named in_ao);
    destructible_output = operation.destructible_out;
    immutable_output = operation.immutable_out;
  }

  -- Everything that the operation reads is there.
  abbrev Complete : Type 0
  Complete =
      (map some (collected (named in_ro)) ≡ named in_ro)
      × (map some (collected (named in_ao)) ≡ named in_ao)

  values-Complete :
      (values : List (StateValue E.Fe)) (found : List (Option (StateValue E.Fe)))
      → map some values ≡ found
      → (collected found ≡ values) × (map some (collected found) ≡ found)
  values-Complete values found same =
      let met : collected found ≡ values = ap collected (sym same) ∙ collected-some values in
      (met, ap (map some) met ∙ same)

  seen-cells :
      Complete
      → (io : Io) (mem : Mem)
      → map some (cells seen (record { io = io; mem = mem })) ≡ named_by io mem
  seen-cells whole input read_once = whole.0
  seen-cells whole input append_only = whole.1
  seen-cells whole output read_once = map-map some (λ (c : StateCell E). c.«data») _
  seen-cells whole output append_only = map-map some (λ (d : StateData E.Fe). d.value) _

  module _ (vm : Machine E) (core_laws : CoreLaws vm.core) (gfa_laws : GfaLaws vm.gfa)
      (distinct : AreDistinct vm.regs) (cat : IoCat)
      (body : Whole vm → List (AnyInstr vm × vm.Site))
      (calm : (c : Whole vm) → NeverResets vm cat (body c))
      (idle : (c : Whole vm) → loads vm cat (body c) ≡ 0) (c : Whole vm)
      (starts : (k : IoCat) → at (vm.core.cx _ c).ui (index k) ≡ 0) (fuel : ℕ)
      (enough : 65535 < fuel) where
    drain-seen :
        IsConfined operation
        → OutputsFit operation
        → Complete
        → drain vm seen cat body fuel c ≡ some (map shown (named cat))
    drain-seen small outputs whole =
        let confined : Cells.IsConfined seen = λ k.
          context-fits runtime repo codex memory operation (collected (named in_ro))
            (collected (named in_ao)) small outputs whole.0 whole.1 k.io k.mem in
        drain-from vm core_laws gfa_laws distinct seen confined cat body calm idle (cells seen cat)
          fuel c (ap (λ n. drop n (cells seen cat)) (starts cat)) (λ k. omega (arith, starts k))
          (omega (arith, confined cat, enough))
        ∙ ap some (sym (map-map shown some (cells seen cat)))
        ∙ ap (λ l. some (map shown l)) (seen-cells whole cat.io cat.mem)

    -- An operation that is verified was run by the verifier of its call, to success, on the context that
    -- its inputs, as the memory has them, and its outputs make, and every script sees the operation on
    -- that context: a script that loads the cells of a category until `CO` fails, and runs any program
    -- that neither loads nor resets the category after each, ends, and was shown the cells of the
    -- operation in that category, each once and in order: of its inputs what the memory has at their
    -- addresses, of its outputs what they hold. The context depends on the operation and the memory
    -- only. The iterators are at the start at first, and the script has more rounds than a vector has
    -- items at most. The vectors of the operation are within the bounds of their types, a reset of the
    -- machine for locks makes it as it was made, cores and registers keep what is set in them, and `EA`
    -- to `ED` are different.
    pub verify-drain :
        ResetLaws runtime.lock_vm
        → (contract_id : ContractId) (v : VerifiedOperation E) → IsConfined operation
        → OutputsFit operation
        → verify runtime repo codex contract_id operation memory ≡ ok v
        → (site : E.LibSite) × (after : runtime.main_vm.Vm) × (lookup codex.verifiers
              operation.call_id
            ≡ some site)
          × (runtime.main_vm.exec
                (runtime.main_vm.with_config codex.verification_config codex.field_order)
                site
                seen
                (resolver runtime repo)
              ≡ done (Status.ok, after))
          × (drain vm seen cat body fuel c ≡ some (map shown (named cat)))
    unfolding context_of
    verify-drain laws contract_id v small outputs h =
        let ((values, constants, site, after, (own, accepts, reads), found, runs), cached) =
          (verify-ok_iff runtime repo codex laws memory contract_id operation v small).0 h in
        let (same, all_there) =
          values-Complete values (named in_ro)
            (Accepts-values runtime repo codex memory operation.destructible_in values accepts) in
        let (same', all_there') =
          values-Complete constants (named in_ao)
            (Reads-values runtime repo codex memory operation.immutable_in constants reads) in
        (
          site,
          after,
          found,
          ap₂
                (λ read fixed.
                  runtime.main_vm.exec
                    (runtime.main_vm.with_config codex.verification_config codex.field_order) site
                    (context_of runtime repo operation read fixed) (resolver runtime repo))
                same same'
              ∙ runs,
          drain-seen small outputs (all_there, all_there'),
        )
