-- ===== src/Stl/Generator/Steps.antt =====
-- The calls of each step of the generator (src/bin/ultrasonic-stl.rs).
use Prim.Native.String.{String}
use mathlib.Core.Path.{subst}
use mathlib.Core.List.{append-nil}
use ultrasonic.Prelude.{
  ◌≡◌, refl, sym, ap, ◌∙◌, Bool, List, [], ◌∷◌, ◌++◌, Option, none, some, Option-cases, done,
  panicked, Bool-cases, inl, inr,
}
use ultrasonic.Stl.{TypeLibs}
use ultrasonic.Stl.Generator.{Systems, Event, Run, unwrap, line, call, import_all, section}
use ultrasonic.Stl.Generator.Makes.{Accepted, StoppedIn, Makes, unwrap-Makes, >>=-ended, >>=-Makes}

module _ (libs : TypeLibs) (systems : Systems libs.Lib) {Format : Type 0}
    (accepts : List (Event libs.Lib Format) → Event libs.Lib Format → Bool) where
  open libs use {Lib, std_stl, strict_types_stl, commit_verify_stl, aluvm_stl, finite_field_stl}
  open systems use {
    SystemBuilder, System, Tree, new_builder, import_lib, finalize, type_tree, print_tree,
    codex_layout, issue_layout, operation_layout,
  }

  abbrev pub Call : Type 0
  Call = Event Lib Format

  abbrev pub Calls : {A : Type 0} → Run Call A → List Call → A → Type 0
  Calls m events value = Makes accepts m events value

  pub call-Makes : (event : Call) → Calls (call libs systems accepts event) (event ∷ []) tt
  unfolding call
  call-Makes event = record { ended = ended; runs = runs; stopped = stopped }
    where
      ended :
          (calls after : List Call) (u : Unit {0})
          → call libs systems accepts event calls ≡ (done u, after)
          → (u ≡ tt) × (after ≡ calls ++ event ∷ []) × Accepted accepts calls (event ∷ [])
      ended calls after u h = elim (Bool-cases (accepts calls event)) [
        | inl taken ↦ let h' : _ = rw taken at h in (refl, ap (λ r. r.1) (sym h'), (taken, tt))
        | inr refused ↦ let h' : _ = rw refused at h in cc h'
      ]

      runs :
          (calls : List Call)
          → Accepted accepts calls (event ∷ [])
          → call libs systems accepts event calls ≡ (done tt, calls ++ event ∷ [])
      runs calls h = rw h.0 refl

      stopped :
          (calls after : List Call)
          → call libs systems accepts event calls ≡ (panicked, after)
          → StoppedIn accepts calls (event ∷ []) after
      stopped calls after h = elim (Bool-cases (accepts calls event)) [
        | inl taken ↦ let h' : _ = rw taken at h in cc h'
        | inr refused ↦
            let h' : _ = rw refused at h in
            ([], event ∷ [], (λ e. cc), refl, ap (λ r. r.1) (sym h') ∙ sym (append-nil calls), tt)
      ]

  -- A result that is there is unwrapped, and nothing else is.
  pub unwrap-some :
      {A : Type 0} (o : Option A) (calls : List Call) {after : List Call} {a : A}
      → unwrap o calls ≡ (done a, after)
      → o ≡ some a
  unfolding unwrap
  unwrap-some none calls h = cc
  unwrap-some (some x) calls h = cc

  pub some-Makes : {A : Type 0} (o : Option A) {a : A} → o ≡ some a → Calls (unwrap o) [] a
  some-Makes o {a} e = subst (λ p. Calls (unwrap p) [] a) (sym e) (unwrap-Makes accepts a)

  -- The builder after each library was imported.
  unfoldable pub imports : List Lib → SystemBuilder → Option SystemBuilder
  imports [] builder = some builder
  imports (lib ∷ rest) builder = elim (import_lib builder lib) [
    | none ↦ none
    | some builder' ↦ imports rest builder'
  ]

  imports-some :
      (lib : Lib) (rest : List Lib) (builder builder' : SystemBuilder)
      → import_lib builder lib ≡ some builder'
      → imports (lib ∷ rest) builder ≡ imports rest builder'
  unfolding imports
  imports-some lib rest builder builder' found =
      ap (λ o. elim o [ none ↦ none | some b ↦ imports rest b ]) found

  imports-none :
      (lib : Lib) (rest : List Lib) (builder : SystemBuilder)
      → import_lib builder lib ≡ none
      → imports (lib ∷ rest) builder ≡ none
  unfolding imports
  imports-none lib rest builder absent =
      ap (λ o. elim o [ none ↦ none | some b ↦ imports rest b ]) absent

  pub import_all-imports :
      (list : List Lib) (builder : SystemBuilder) (calls : List Call) {after : List Call}
      {last : SystemBuilder}
      → import_all libs systems accepts list builder calls ≡ (done last, after)
      → imports list builder ≡ some last
  unfolding import_all imports
  import_all-imports [] builder calls h = unwrap-some (some builder) calls h
  import_all-imports (lib ∷ rest) builder calls h =
      let (builder', mid, h₁, h₂) =
        >>=-ended (unwrap (import_lib builder lib)) (import_all libs systems accepts rest) h in
      imports-some lib rest builder builder' (unwrap-some (import_lib builder lib) calls h₁)
      ∙ import_all-imports rest builder' mid h₂

  pub import_all-Makes :
      (list : List Lib) (builder : SystemBuilder) {last : SystemBuilder}
      → imports list builder ≡ some last
      → Calls (import_all libs systems accepts list builder) [] last
  unfolding import_all imports
  import_all-Makes [] builder e = some-Makes (some builder) e
  import_all-Makes (lib ∷ rest) builder {last} e = elim (Option-cases (import_lib builder lib)) [
    | inl absent ↦
        let nothing : none ≡ some last = sym (imports-none lib rest builder absent) ∙ e in
        cc nothing
    | inr (builder', found) ↦
        >>=-Makes accepts (unwrap (import_lib builder lib)) (import_all libs systems accepts rest)
          (some-Makes (import_lib builder lib) found)
          (import_all-Makes rest builder' (sym (imports-some lib rest builder builder' found) ∙ e))
  ]

  -- The calls of a section.
  abbrev pub section_calls : String → String → Tree → List Call
  section_calls title layout tree =
      Event.wrote (line title)
      ∷ Event.wrote (line layout)
      ∷ Event.wrote (line (print_tree tree))
      ∷ []

  pub section-Makes :
      (sys : System) (title layout name : String) {tree : Tree}
      → type_tree sys name ≡ some tree
      → Calls
          (section libs systems accepts sys title layout name)
          (section_calls title layout tree)
          tt
  unfolding section
  section-Makes sys title layout name {tree} found =
      >>=-Makes accepts _ _ (call-Makes (Event.wrote (line title))) (
        >>=-Makes accepts _ _ (call-Makes (Event.wrote (line layout))) (
          >>=-Makes accepts _ _ (some-Makes (type_tree sys name) found)
            (call-Makes (Event.wrote (line (print_tree tree))))))

  pub section-tree :
      (sys : System) (title layout name : String) (calls : List Call) {after : List Call}
      {u : Unit {0}}
      → section libs systems accepts sys title layout name calls ≡ (done u, after)
      → (tree : Tree) × (type_tree sys name ≡ some tree)
  unfolding section
  section-tree sys title layout name calls h =
      let (u₁, mid₁, h₁, h₂) = >>=-ended _ _ h in
      let (u₂, mid₂, h₃, h₄) = >>=-ended _ _ h₂ in
      let (tree, mid₃, h₅, h₆) = >>=-ended _ _ h₄ in
      (tree, unwrap-some (type_tree sys name) mid₂ h₅)
