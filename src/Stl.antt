-- ===== src/Stl.antt =====
-- src/stl.rs: the library of strict types. The builder of libraries is that of strict_types, a parameter.
pub mod Generator
use Prim.Native.String.{String}
use ultrasonic.Prelude.{List, [], ◌∷◌, Result, ok, err, Partial, done, panicked}

-- The types that are transpiled, with all that they are made of.
pub data Transpiled : Type 0 where
  opid operation contract_id issue : Transpiled

-- `TypeLib`, `LibBuilder` and `CompileError` of strict_types, and the libraries of other crates.
pub record TypeLibs : Type 1 where
  pub Lib : Type 0
  pub Dependency : Type 0
  pub Builder : Type 0
  pub CompileError : Type 0
  pub std_stl : Lib
  pub strict_types_stl : Lib
  pub commit_verify_stl : Lib
  pub aluvm_stl : Lib
  pub finite_field_stl : Lib
  pub to_dependency_types : Lib → Dependency
  pub build_with : String → List Dependency → Builder
  pub transpile : Builder → Transpiled → Builder
  pub compile : Builder → Result Lib CompileError

-- `LIB_NAME_ULTRASONIC` of src/lib.rs
abbrev pub lib_name_ultrasonic : String
lib_name_ultrasonic = "UltraSONIC"

-- `Result::expect`
abbrev expect {ℓ κ} : {A : Type ℓ} {E : Type κ} → Result A E → Partial A
expect (ok a) = done a
expect (err e) = panicked

module _ (libs : TypeLibs) where
  open libs use {
    Lib, CompileError, std_stl, strict_types_stl, commit_verify_stl, aluvm_stl, finite_field_stl,
    to_dependency_types, build_with, transpile, compile,
  }

  -- `_usonic_stl`
  unfoldable pub compiled_stl : Result Lib CompileError
  compiled_stl =
      let builder = build_with lib_name_ultrasonic (
        to_dependency_types std_stl
        ∷ to_dependency_types strict_types_stl
        ∷ to_dependency_types commit_verify_stl
        ∷ to_dependency_types aluvm_stl
        ∷ to_dependency_types finite_field_stl
        ∷ []) in
      let builder₁ = transpile builder Transpiled.opid in
      let builder₂ = transpile builder₁ Transpiled.operation in
      let builder₃ = transpile builder₂ Transpiled.contract_id in
      let builder₄ = transpile builder₃ Transpiled.issue in compile builder₄

  -- `usonic_stl`
  unfoldable pub usonic_stl : Partial Lib
  unfolding compiled_stl
  usonic_stl = expect compiled_stl
