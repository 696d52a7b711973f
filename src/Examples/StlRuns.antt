-- ===== src/Examples/StlRuns.antt =====
-- A run of the generator of the library of types (src/bin/ultrasonic-stl.rs).
use Prim.Native.String.{String}
use ultrasonic.Prelude.{ℕ, ◌≡◌, refl, Bool, List, [], ◌∷◌, none, some, ok, done, length, ltb}
use ultrasonic.Stl.{TypeLibs, Transpiled, usonic_stl}
use ultrasonic.Stl.Generator.{Systems, Event, main}
use ultrasonic.Stl.Generator.Steps.{imports}
use ultrasonic.Stl.Generator.Exact.{Parts, plan, main_exact}

-- Libraries are numbers, builders the numbers of what they hold.
abbrev libs : TypeLibs
libs = record {
  Lib = ℕ;
  Dependency = ℕ;
  Builder = List Transpiled;
  CompileError = Unit {0};
  std_stl = 1;
  strict_types_stl = 2;
  commit_verify_stl = 3;
  aluvm_stl = 4;
  finite_field_stl = 5;
  to_dependency_types = λ lib. lib;
  build_with = λ name deps. [];
  transpile = λ builder t. t ∷ builder;
  compile = λ builder. ok (length builder);
}

abbrev systems : Systems ℕ
systems = record {
  SystemBuilder = List ℕ;
  System = List ℕ;
  Tree = String;
  new_builder = [];
  import_lib = λ builder lib. some (lib ∷ builder);
  finalize = λ builder. some builder;
  type_tree = λ sys name. some name;
  print_tree = λ tree. tree;
  codex_layout = "codex";
  issue_layout = "issue";
  operation_layout = "operation";
}

-- A disk that has room for fifteen calls.
abbrev accepts : List (Event ℕ ℕ) → Event ℕ ℕ → Bool
accepts calls event = ltb (length calls) 15

abbrev parts : Parts libs systems accepts
unfolding usonic_stl imports
parts = record {
  lib = 4;
  builder = 4 ∷ 4 ∷ 3 ∷ 5 ∷ 2 ∷ 1 ∷ [];
  sys = 4 ∷ 4 ∷ 3 ∷ 5 ∷ 2 ∷ 1 ∷ [];
  codex = "UltraSONIC.Codex";
  issue = "UltraSONIC.Issue";
  genesis = "UltraSONIC.Genesis";
  operation = "UltraSONIC.Operation";
  compiles = refl;
  imported = refl;
  finalized = refl;
  codex_tree = refl;
  issue_tree = refl;
  genesis_tree = refl;
  operation_tree = refl;
}

main_exact_example :
    main libs systems accepts 7 none [] ≡ (done tt, plan libs systems accepts 7 none parts)
unfolding parts
main_exact_example =
    (main_exact libs systems accepts 7 none (plan libs systems accepts 7 none parts)).0.1 (
      parts,
      (
        refl,
        (
          refl,
          (
            refl,
            (
              refl,
              (
                refl,
                (refl, (refl, (refl, (refl, (refl, (refl, (refl, (refl, (refl, (refl, tt)))))))))),
              ),
            ),
          ),
        ),
      ),
      refl,
    )
