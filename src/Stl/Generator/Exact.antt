-- ===== src/Stl/Generator/Exact.antt =====
-- When the generator of the library of types ends, and what it has written then (src/stl.rs,
-- src/bin/ultrasonic-stl.rs).
use Prim.Native.String.{String, ◌++◌ as ◌<>◌}
use mathlib.Core.Option.{get_or}
use ultrasonic.Prelude.{
  ◌≡◌, ◌↔◌, sym, ap, ◌∙◌, Bool, List, [], ◌∷◌, ◌++◌, Option, some, done, panicked,
}
use ultrasonic.Stl.{TypeLibs, usonic_stl}
use ultrasonic.Stl.Generator.{Systems, Event, line, description, heading, main}
use ultrasonic.Stl.Generator.Makes.{
  Accepted, StoppedIn, lift-Makes, lift-done, >>=-ended, >>=-Makes,
}
use ultrasonic.Stl.Generator.Steps.{
  Calls, call-Makes, unwrap-some, some-Makes, imports, import_all-imports, import_all-Makes,
  section_calls, section-Makes, section-tree,
}

module _ (libs : TypeLibs) (systems : Systems libs.Lib) {Format : Type 0}
    (accepts : List (Event libs.Lib Format) → Event libs.Lib Format → Bool) where
  open libs use {Lib, std_stl, strict_types_stl, commit_verify_stl, aluvm_stl, finite_field_stl}
  open systems use {
    SystemBuilder, System, Tree, new_builder, finalize, type_tree, codex_layout, issue_layout,
    operation_layout,
  }

  -- The libraries in the order in which they are imported.
  abbrev all_libs : Lib → List Lib
  all_libs lib =
      std_stl ∷ strict_types_stl ∷ finite_field_stl ∷ commit_verify_stl ∷ aluvm_stl ∷ lib ∷ []

  -- What the program is made from when all of it is there: the library, the system that the six libraries
  -- make, and the trees of four of its types.
  pub record Parts : Type 0 where
    pub lib : Lib
    pub builder : SystemBuilder
    pub sys : System
    pub codex : Tree
    pub issue : Tree
    pub genesis : Tree
    pub operation : Tree
    pub compiles : usonic_stl libs ≡ done lib
    pub imported : imports libs systems accepts (all_libs lib) new_builder ≡ some builder
    pub finalized : finalize builder ≡ some sys
    pub codex_tree : type_tree sys "UltraSONIC.Codex" ≡ some codex
    pub issue_tree : type_tree sys "UltraSONIC.Issue" ≡ some issue
    pub genesis_tree : type_tree sys "UltraSONIC.Genesis" ≡ some genesis
    pub operation_tree : type_tree sys "UltraSONIC.Operation" ≡ some operation

  abbrev of_section : String → String → Tree → List (Event Lib Format)
  of_section title layout tree = section_calls libs systems accepts title layout tree

  -- All the calls, in their order: the library is written, and then the file with its heading and four
  -- sections, one for each type.
  abbrev pub plan : Format → Option String → Parts → List (Event Lib Format)
  plan format dir parts =
      Event.serialized parts.lib format dir "0.12.0" description
      ∷ Event.created (get_or dir "." <> "/UltraSONIC.vesper")
      ∷ Event.wrote (line heading)
      ∷ (of_section "\n-- Contract Codex\n" codex_layout parts.codex
          ++ (of_section "\n-- Contract Issue\n" issue_layout parts.issue
              ++ (of_section "\n-- Contract Genesis\n" operation_layout parts.genesis
                  ++ of_section "\n-- Contract Operation\n" operation_layout parts.operation)))

  main-Makes :
      (format : Format) (dir : Option String) (parts : Parts)
      → Calls libs systems accepts (main libs systems accepts format dir) (plan format dir parts) tt
  unfolding main
  main-Makes format dir parts =
      >>=-Makes accepts _ _ (lift-Makes accepts (usonic_stl libs) parts.compiles) (
        >>=-Makes accepts _ _ (call-Makes libs systems accepts _) (
          >>=-Makes accepts _ _
            (import_all-Makes libs systems accepts (all_libs parts.lib) new_builder parts.imported)
            (>>=-Makes accepts _ _
              (some-Makes libs systems accepts (finalize parts.builder) parts.finalized)
              (>>=-Makes accepts _ _ (call-Makes libs systems accepts _) (
                >>=-Makes accepts _ _ (call-Makes libs systems accepts _) (
                  >>=-Makes accepts _ _
                    (section-Makes libs systems accepts parts.sys _ codex_layout _ parts.codex_tree)
                    (>>=-Makes accepts _ _
                      (section-Makes libs systems accepts parts.sys _ issue_layout _
                        parts.issue_tree)
                      (>>=-Makes accepts _ _
                        (section-Makes libs systems accepts parts.sys _ operation_layout _
                          parts.genesis_tree)
                        (section-Makes libs systems accepts parts.sys _ operation_layout _
                          parts.operation_tree)))))))))

  main-parts :
      (format : Format) (dir : Option String) (calls : List (Event Lib Format))
      {after : List (Event Lib Format)} {u : Unit {0}}
      → main libs systems accepts format dir calls ≡ (done u, after)
      → Parts
  unfolding main
  main-parts format dir calls h =
      let (lib, c₁, compiles, h₁) = >>=-ended _ _ h in
      let (u₂, c₂, e₂, h₂) = >>=-ended _ _ h₁ in
      let (builder, c₃, imported, h₃) = >>=-ended _ _ h₂ in
      let (sys, c₄, finalized, h₄) = >>=-ended _ _ h₃ in
      let (u₅, c₅, e₅, h₅) = >>=-ended _ _ h₄ in
      let (u₆, c₆, e₆, h₆) = >>=-ended _ _ h₅ in
      let (u₇, c₇, codex, h₇) = >>=-ended _ _ h₆ in
      let (u₈, c₈, issue, h₈) = >>=-ended _ _ h₇ in
      let (u₉, c₉, genesis, operation) = >>=-ended _ _ h₈ in
      let (codex_tree, codex_found) = section-tree libs systems accepts sys _ _ _ c₆ codex in
      let (issue_tree, issue_found) = section-tree libs systems accepts sys _ _ _ c₇ issue in
      let (genesis_tree, genesis_found) = section-tree libs systems accepts sys _ _ _ c₈ genesis in
      let (operation_tree, operation_found) =
        section-tree libs systems accepts sys _ _ _ c₉ operation in
      record {
        lib = lib;
        builder = builder;
        sys = sys;
        codex = codex_tree;
        issue = issue_tree;
        genesis = genesis_tree;
        operation = operation_tree;
        compiles = lift-done (usonic_stl libs) calls compiles;
        imported = import_all-imports libs systems accepts (all_libs lib) new_builder c₂ imported;
        finalized = unwrap-some libs systems accepts (finalize builder) c₃ finalized;
        codex_tree = codex_found;
        issue_tree = issue_found;
        genesis_tree = genesis_found;
        operation_tree = operation_found;
      }

  -- The generator ends without a panic just if the library compiles, the six libraries make a system that
  -- has the four types, and every call is accepted after those before it. It has then made all the calls
  -- in their order: the library is written, the file is created, and the heading and the four sections
  -- are written to it. When the library and the system are so and it panics, it has made the calls in
  -- front of one, and each of these was accepted.
  pub main_exact :
      (format : Format) (dir : Option String) (calls : List (Event Lib Format))
      → ((main libs systems accepts format dir [] ≡ (done tt, calls)) ↔ (
          (parts : Parts) × Accepted accepts [] (plan format dir parts)
          × (calls ≡ plan format dir parts)))
        × ((parts : Parts)
            → main libs systems accepts format dir [] ≡ (panicked, calls)
            → StoppedIn accepts [] (plan format dir parts) calls)
  main_exact format dir calls = (
    (
      (λ h.
          let parts : Parts = main-parts format dir [] h in
          let (same, made, accepted) = (main-Makes format dir parts).ended [] calls tt h in
          (parts, accepted, made)),
      λ (parts, accepted, made).
          (main-Makes format dir parts).runs [] accepted ∙ ap (λ l. (done tt, l)) (sym made),
    ),
    λ parts h. (main-Makes format dir parts).stopped [] calls h,
  )
