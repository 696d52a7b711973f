-- ===== src/Examples/BytecodeRuns.antt =====
-- The bytes of instructions (src/isa/bytecode.rs), computed.
use ultrasonic.Prelude.{◌≤◌, ◌<◌, panicked}
use ultrasonic.Isa.Instr.{UsonicInstr}
use ultrasonic.Isa.Bytecode.Usonic
use ultrasonic.Isa.Bytecode.Usonic.{opcode-decode}
use ultrasonic.Prelude.{
  ℕ, ◌≡◌, refl, true, [], ◌∷◌, ◌++◌, none, arith, length, done, Bytes, ok, drop, drop-length_append,
  ap,
}
use ultrasonic.Isa.Instr.{ctrl}
use ultrasonic.Isa.Bytecode
use ultrasonic.Isa.Bytecode.{BytecodeApi}
use ultrasonic.Isa.Bytecode.RoundTrip.{BytecodeLaws, AreDisjoint, decode-encode_lem}

-- One instruction in each foreign architecture, of the opcodes 0, 64 and 255. The first has an
-- operand byte.
abbrev code : ℕ → ℕ → ℕ → Bytes → BytecodeApi (Unit {0}) (Unit {0}) (Unit {0}) (Unit {0})
code first last opcode operands = record {
  op_first = first;
  op_last = last;
  opcode_byte = λ i. opcode;
  code_byte_len = λ i. 1;
  external_ref = λ i. none;
  encode_operands = λ i writer. ok (writer ++ operands);
  decode_operands = λ reader opcode. done (ok (tt, drop (length operands) reader));
}

drop-append : (xs ys : Bytes) → drop (length xs) (xs ++ ys) ≡ ys
drop-append xs ys = drop-length_append (length xs) xs ys refl

code-laws :
    (first last opcode : ℕ) (operands : Bytes)
    → Bytecode.contains first last opcode ≡ true
    → BytecodeLaws (code first last opcode operands)
code-laws first last opcode operands h = record {
  opcode-contained = λ i. h;
  decode-encode = λ i writer written e.
      (operands, (cc), λ rest. ap (λ b. done (ok (tt, b))) (drop-append operands rest));
}

disjoint : AreDisjoint (code 0 63 0 (1 ∷ [])) (code 64 127 64 []) (code 192 255 255 [])
disjoint = record {
  field_not_ctrl = λ i. refl;
  usonic_not_ctrl = λ op h. ground arith;
  usonic_not_field = λ op h. ground arith;
  reserved_not_ctrl = λ i. refl;
  reserved_not_field = λ i. refl;
  reserved_not_usonic = λ i. refl;
}

decode-encode_lem_example :
    (operands : Bytes) × (7 ∷ 1 ∷ [] ≡ 7 ∷ [] ++ operands)
    × ((rest : Bytes)
        → Bytecode.decode_operands
            (code 0 63 0 (1 ∷ []))
            (code 64 127 64 [])
            (code 192 255 255 [])
            (operands ++ rest)
            (Bytecode.opcode_byte
              (code 0 63 0 (1 ∷ []))
              (code 64 127 64 [])
              (code 192 255 255 [])
              (ctrl tt))
          ≡ done (ok (ctrl tt, rest)))
unfolding Bytecode.encode_operands
decode-encode_lem_example =
    decode-encode_lem (code-laws 0 63 0 (1 ∷ []) refl) (code-laws 64 127 64 [] refl)
      (code-laws 192 255 255 [] refl) disjoint (ctrl tt) (7 ∷ []) (7 ∷ 1 ∷ []) refl

opcode-decode_example :
    (128 ≤ 132
      → 132 ≤ 139
      → (instr : UsonicInstr) × (Usonic.decode_operands {Eof = Unit {0}} [] 132
          ≡ done (ok (instr, [])))
        × (Usonic.opcode_byte instr ≡ 132))
    × (132 < 128 → Usonic.decode_operands {Eof = Unit {0}} [] 132 ≡ panicked)
    × (139 < 132 → Usonic.decode_operands {Eof = Unit {0}} [] 132 ≡ panicked)
opcode-decode_example = opcode-decode 132 []
