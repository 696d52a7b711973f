-- ===== src/Stl/Generator.antt =====
-- src/bin/ultrasonic-stl.rs: the program that writes the library of types and its description. What it
-- calls outside is kept as the sequence of the calls that succeeded.
pub mod Makes
pub mod Steps
pub mod Exact
use Prim.Native.String.{String, ◌++◌ as ◌<>◌}
use mathlib.Core.Option.{get_or}
use ultrasonic.Prelude.{
  Bool, Option, none, some, List, [], ◌∷◌, ◌++◌, Partial, done, panicked, if◌then◌else◌,
}
use ultrasonic.Stl.{TypeLibs, usonic_stl}

-- `SystemBuilder`, `TypeSystem` and what is printed of their types, of strict_types, and the layouts
-- of commitments, of commit_verify. An `Option` is a result that is unwrapped.
pub record Systems (Lib : Type 0) : Type 1 where
  pub SystemBuilder : Type 0
  pub System : Type 0
  pub Tree : Type 0
  pub new_builder : SystemBuilder
  pub import_lib : SystemBuilder → Lib → Option SystemBuilder
  pub finalize : SystemBuilder → Option System
  pub type_tree : System → String → Option Tree
  pub print_tree : Tree → String
  pub codex_layout : String
  pub issue_layout : String
  pub operation_layout : String

-- The calls that change files: `TypeLib::serialize`, `File::create`, and `writeln!` to that file, with
-- the text that it writes.
pub data Event (Lib Format : Type 0) : Type 0 where
  serialized : Lib → Format → Option String → String → String → Event Lib Format
  created : String → Event Lib Format
  wrote : String → Event Lib Format

-- A step of the program: the calls so far to the calls after it, and a value or a panic.
abbrev pub Run : Type 0 → Type 0 → Type 0
Run E A = List E → Partial A × List E

unfoldable pub and_then : {E A B : Type 0} → (A → Run E B) → Partial A × List E → Partial B × List E
and_then f (done a, calls) = f a calls
and_then f (panicked, calls) = (panicked, calls)

infixl 5 ◌>>=◌ ◌>>◌
unfoldable pub ◌>>=◌ : {E A B : Type 0} → Run E A → (A → Run E B) → Run E B
◌>>=◌ m f calls = and_then f (m calls)

abbrev pub ◌>>◌ : {E A B : Type 0} → Run E A → Run E B → Run E B
m >> n = m >>= λ _. n

-- `unwrap`
unfoldable pub unwrap : {E A : Type 0} → Option A → Run E A
unwrap none calls = (panicked, calls)
unwrap (some a) calls = (done a, calls)

-- A value that was made, or a panic that was met, with no call.
unfoldable pub lift : {E A : Type 0} → Partial A → Run E A
lift r calls = (r, calls)

-- A line of `writeln!`.
abbrev pub line : String → String
line text = text <> "\n"

-- The text about the library that goes with it.
abbrev pub description : String
description =
    "\n  Description: Transactional execution layer with capability-based memory access for zk-AluVM"
    <> "\n  Author: Dr Maxim Orlovsky <orlovsky@ubideco.org>"
    <> "\n  Copyright (C) 2024-2025 Laboratories for Ubiquitous Deterministic Computing (UBIDECO),"
    <> "\n                          Institute for Distributed and Cognitive Systems (InDCS), Switzerland."
    <> "\n                          All rights reserved." <> "\n  License: Apache-2.0"

-- The first text of the file: the same in a comment.
abbrev pub heading : String
heading = "{-" <> description <> "\n-}\n\n@@lexicon(types+commitments)\n"

module _ (libs : TypeLibs) (systems : Systems libs.Lib) {Format : Type 0}
    (accepts : List (Event libs.Lib Format) → Event libs.Lib Format → Bool) where
  open libs use {Lib, std_stl, strict_types_stl, commit_verify_stl, aluvm_stl, finite_field_stl}
  open systems use {
    SystemBuilder, System, new_builder, import_lib, finalize, type_tree, print_tree, codex_layout,
    issue_layout, operation_layout,
  }

  -- A call, which is accepted or not after those before it, and the `unwrap` of its result.
  unfoldable pub call : Event Lib Format → Run (Event Lib Format) (Unit {0})
  call event calls =
      if accepts calls event then (done tt, calls ++ event ∷ []) else (panicked, calls)

  -- The chain of `import` and `unwrap`.
  unfoldable pub import_all : List Lib → SystemBuilder → Run (Event Lib Format) SystemBuilder
  import_all [] builder = unwrap (some builder)
  import_all (lib ∷ rest) builder = do
    builder' ← unwrap (import_lib builder lib)
    import_all rest builder'

  -- One of the four sections: its title, the layout of the commitment, and the tree of the type.
  unfoldable pub section : System → String → String → String → Run (Event Lib Format) (Unit {0})
  section sys title layout name = do
    call (Event.wrote (line title))
    call (Event.wrote (line layout))
    tree ← unwrap (type_tree sys name)
    call (Event.wrote (line (print_tree tree)))

  -- `main`, after its arguments were parsed
  unfoldable pub main : Format → Option String → Run (Event Lib Format) (Unit {0})
  main format dir = do
    lib ← lift (usonic_stl libs)
    call (Event.serialized lib format dir "0.12.0" description)
    builder ←
        import_all
          (std_stl ∷ strict_types_stl ∷ finite_field_stl ∷ commit_verify_stl ∷ aluvm_stl ∷ lib ∷ [])
          new_builder
    sys ← unwrap (finalize builder)
    call (Event.created (get_or dir "." <> "/UltraSONIC.vesper"))
    call (Event.wrote (line heading))
    section sys "\n-- Contract Codex\n" codex_layout "UltraSONIC.Codex"
    section sys "\n-- Contract Issue\n" issue_layout "UltraSONIC.Issue"
    section sys "\n-- Contract Genesis\n" operation_layout "UltraSONIC.Genesis"
    section sys "\n-- Contract Operation\n" operation_layout "UltraSONIC.Operation"
