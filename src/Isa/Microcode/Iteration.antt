-- ===== src/Isa/Microcode/Iteration.antt =====
-- Iteration over the cells of a category (src/isa/microcode.rs): what a script sees that loads until
-- `CO` fails.
use ultrasonic.Prelude.{
  ℕ, zero, suc, ◌+◌, ◌<◌, ◌≡◌, refl, ◌∙◌, Bool, false, Option, none, some, List, [], ◌∷◌, map,
  arith, ap, ap₂, get_elem?, length, drop, is_some,
}
use ultrasonic.Externals.{Externals, Registers, AreDistinct}
use ultrasonic.State.Value.{StateValue}
use ultrasonic.Isa.Core.{IoCat, index, at, GfaApi, GfaLaws, UsonicCore, at-set_at}
use ultrasonic.Isa.Context.{VmContext}
use ultrasonic.Isa.Microcode.{has_data, load, reset}
use ultrasonic.Isa.Microcode.Load.{element, load-registers, load-iterators}
use ultrasonic.Isa.Microcode.Cells.{cells, state_value-cells, is_some-get_elem?, IsConfined}

module _ {E : Externals} {Gfa : Type 0} (regs : Registers E.RegE) (api : GfaApi E.Fe E.RegE Gfa)
    (context : VmContext E) where
  -- The registers `EA` to `ED`, as a script reads them after a load.
  abbrev pub observe : UsonicCore Gfa → List (Option E.Fe)
  observe core =
      api.get core.gfa regs.ea
      ∷ api.get core.gfa regs.eb
      ∷ api.get core.gfa regs.ec
      ∷ api.get core.gfa regs.ed
      ∷ []

  -- What one load reports and leaves there.
  abbrev pub outcome : UsonicCore Gfa → IoCat → Bool × List (Option E.Fe)
  outcome core cat = let (co, next) = load regs api core cat context in (co, observe next)

  -- What `n` loads of one category report and leave in the registers, one after the other.
  pub trace : ℕ → UsonicCore Gfa → IoCat → List (Bool × List (Option E.Fe))
  trace zero core cat = []
  trace (suc n) core cat = outcome core cat ∷ trace n (load regs api core cat context).1 cat

  -- The core after `n` loads of one category.
  pub after : ℕ → UsonicCore Gfa → IoCat → UsonicCore Gfa
  after zero core cat = core
  after (suc n) core cat = after n (load regs api core cat context).1 cat

-- What is seen of one cell, and of a load beyond the last.
abbrev pub seen : {Fe : Type 0} → Option (StateValue Fe) → Bool × List (Option Fe)
seen found =
    (is_some found, element 0 found ∷ element 1 found ∷ element 2 found ∷ element 3 found ∷ [])

pub get_elem?-length {ℓ} : {A : Type ℓ} (xs : List A) → get_elem? xs (length xs) ≡ none
get_elem?-length [] = refl
get_elem?-length (x ∷ xs) = get_elem?-length xs

-- A list from an index on begins with the item there.
pub drop-cons {ℓ} :
    {A : Type ℓ} (xs : List A) (i : ℕ) {x : A} {rest : List A}
    → drop i xs ≡ x ∷ rest
    → (get_elem? xs i ≡ some x) × (drop (suc i) xs ≡ rest) × (i < length xs)
drop-cons [] zero e = absurd (cc)
drop-cons [] (suc i) e = absurd (cc)
drop-cons (y ∷ ys) zero e = (cc, cc, omega arith)
drop-cons (y ∷ ys) (suc i) e =
    let (found, after, inside) = drop-cons ys i e in (found, after, omega arith)

module _ {E : Externals} {Gfa : Type 0} {regs : Registers E.RegE} {api : GfaApi E.Fe E.RegE Gfa}
    (distinct : AreDistinct regs) (laws : GfaLaws api) (context : VmContext E) where
  pub outcome_lem :
      (core : UsonicCore Gfa) (cat : IoCat)
      → outcome regs api context core cat
        ≡ seen (get_elem? (cells context cat) (at core.ui (index cat)))
  outcome_lem core cat =
      let reported : _ = (load-iterators regs api core cat context).0 in
      let r : _ = load-registers regs api core cat context distinct laws in
      (λ i. (reported i, r.0 i ∷ r.1 i ∷ r.2 i ∷ r.3 i ∷ []))
      ∙ ap seen (state_value-cells context cat (at core.ui (index cat)))

  -- The iterator after a load from a cell: one further, with no wrap in a confined context.
  pub advance :
      (confined : IsConfined context) (core : UsonicCore Gfa) (cat : IoCat)
      → at core.ui (index cat) < length (cells context cat)
      → at (load regs api core cat context).1.ui (index cat) ≡ suc (at core.ui (index cat))
  advance confined core cat inside = ground (
    arith,
    (load-iterators regs api core cat context).1,
    state_value-cells context cat (at core.ui (index cat)),
    is_some-get_elem? (cells context cat) (at core.ui (index cat)),
    confined cat,
  )

  -- Loads from an iterator in range show the cells from there on, each once and in order.
  trace-from :
      (confined : IsConfined context) (core : UsonicCore Gfa) (cat : IoCat)
      (rest : List (StateValue E.Fe))
      → drop (at core.ui (index cat)) (cells context cat) ≡ rest
      → trace regs api context (length rest) core cat ≡ map (λ v. seen (some v)) rest
  unfolding trace
  trace-from confined core cat [] e = refl
  trace-from confined core cat (v ∷ rest) e =
      let (found, after, inside) = drop-cons (cells context cat) (at core.ui (index cat)) e in
      let next : _ = advance confined core cat inside in
      ap₂ ◌∷◌ (outcome_lem core cat ∙ ap seen found) (
        trace-from confined (load regs api core cat context).1 cat rest
          (ap (λ i. drop i (cells context cat)) next ∙ after))

  after-from :
      (confined : IsConfined context) (n : ℕ) (core : UsonicCore Gfa) (cat : IoCat)
      → at core.ui (index cat) + n ≡ length (cells context cat)
      → at (after regs api context n core cat).ui (index cat) ≡ length (cells context cat)
  unfolding after
  after-from confined zero core cat e = omega arith
  after-from confined (suc n) core cat e =
      let next : _ = advance confined core cat (omega arith) in
      after-from confined n (load regs api core cat context).1 cat (omega arith)

  -- After a reset, as many loads as the category has cells succeed and show every cell, each once
  -- and in order. Then `has_data` reports that nothing is left, and a further load fails and clears
  -- `EA` to `ED`. The context is one of an operation, of less than 2 ^ 16 cells in each category.
  -- Registers are taken to keep what is put, and `EA` to `ED` are different.
  pub iteration_complete :
      (confined : IsConfined context) (core : UsonicCore Gfa) (cat : IoCat)
      → let start = reset core cat in
        let count = length (cells context cat) in
        let end = after regs api context count start cat in
        (trace regs api context count start cat ≡ map (λ v. seen (some v)) (cells context cat))
        × ((has_data end cat context).0 ≡ false)
        × (outcome regs api context end cat ≡ seen none)
  unfolding reset has_data
  iteration_complete confined core cat =
      let start : UsonicCore Gfa = reset core cat in
      let all : List (StateValue E.Fe) = cells context cat in
      let at_zero : at start.ui (index cat) ≡ 0 = at-set_at core.ui cat 0 in
      let at_end : _ = after-from confined (length all) start cat (omega arith) in
      let nothing : get_elem? all
            (at (after regs api context (length all) start cat).ui (index cat))
          ≡ none =
        ap (get_elem? all) at_end ∙ get_elem?-length all in
      (
        trace-from confined start cat all (ap (λ i. drop i all) at_zero),
        ap is_some (state_value-cells context cat _ ∙ nothing),
        outcome_lem _ cat ∙ ap seen nothing,
      )
