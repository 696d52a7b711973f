-- ===== src/Examples/MasmRuns.antt =====
-- Lines of the assembler (src/isa/masm.rs).
use ultrasonic.Prelude.{ℕ, ◌≡◌, refl, Option, none, some, List, [], ◌∷◌}
use ultrasonic.Isa.Instr.{Instr, usonic, ld_o_ao}
use ultrasonic.Isa.Masm.{Token, instr, line_of, ident, ldo, immutable, instr_iff}

-- A macro of zk-aluvm that takes no line.
abbrev nothing : List (Token (Unit {0})) → Option (Instr ℕ ℕ ℕ)
nothing line = none

instr_iff_example : instr nothing (ident ldo ∷ ident immutable ∷ []) ≡ some (usonic ld_o_ao)
unfolding line_of
instr_iff_example =
    ((instr_iff nothing (λ line i h. cc) (ident ldo ∷ ident immutable ∷ [])).0 ld_o_ao).1 refl
