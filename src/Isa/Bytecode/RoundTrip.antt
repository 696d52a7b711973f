-- ===== src/Isa/Bytecode/RoundTrip.antt =====
-- An instruction of any architecture is read back from its opcode and operands
-- (src/isa/bytecode.rs).
use mathlib.Core.List.{append-nil}
use ultrasonic.Prelude.{ℕ, ◌≡◌, sym, ◌∙◌, true, false, [], ◌++◌, Bytes, done, ok, arith}
use ultrasonic.Isa.Instr.{UsonicInstr, Instr, ctrl, gfa, usonic, reserved}
use ultrasonic.Isa.Bytecode.{BytecodeApi, contains, opcode_byte, encode_operands, decode_operands}
use ultrasonic.Isa.Bytecode.Usonic

-- What zk-aluvm documents of an architecture: its opcodes lie in its range, and what it writes after
-- an opcode it reads back, whatever follows.
pub record BytecodeLaws {SiteId WriteError Eof I : Type 0}
    (code : BytecodeApi SiteId WriteError Eof I) : Type 0 where
  pub opcode-contained : (i : I) → contains code.op_first code.op_last (code.opcode_byte i) ≡ true
  pub decode-encode :
      (i : I) (writer written : Bytes)
      → code.encode_operands i writer ≡ ok written
      → (operands : Bytes) × (written ≡ writer ++ operands)
        × ((rest : Bytes)
            → code.decode_operands (operands ++ rest) (code.opcode_byte i) ≡ done (ok (i, rest)))

module _ {SiteId WriteError Eof Ctrl Field Reserved : Type 0}
    (ctrl_code : BytecodeApi SiteId WriteError Eof Ctrl)
    (field_code : BytecodeApi SiteId WriteError Eof Field)
    (reserved_code : BytecodeApi SiteId WriteError Eof Reserved) where
  -- The opcode table gives no opcode to two architectures.
  pub record AreDisjoint : Type 0 where
    pub field_not_ctrl :
        (i : Field)
        → contains ctrl_code.op_first ctrl_code.op_last (field_code.opcode_byte i) ≡ false
    pub usonic_not_ctrl :
        (op : ℕ)
        → contains Usonic.start Usonic.end op ≡ true
        → contains ctrl_code.op_first ctrl_code.op_last op ≡ false
    pub usonic_not_field :
        (op : ℕ)
        → contains Usonic.start Usonic.end op ≡ true
        → contains field_code.op_first field_code.op_last op ≡ false
    pub reserved_not_ctrl :
        (i : Reserved)
        → contains ctrl_code.op_first ctrl_code.op_last (reserved_code.opcode_byte i) ≡ false
    pub reserved_not_field :
        (i : Reserved)
        → contains field_code.op_first field_code.op_last (reserved_code.opcode_byte i) ≡ false
    pub reserved_not_usonic :
        (i : Reserved) → contains Usonic.start Usonic.end (reserved_code.opcode_byte i) ≡ false

usonic-contained :
    (i : UsonicInstr) → contains Usonic.start Usonic.end (Usonic.opcode_byte i) ≡ true
usonic-contained i = let (low, high, _) = Usonic.decode-opcode {Eof = Unit {0}} i [] in ground arith

module _ {SiteId WriteError Eof Ctrl Field Reserved : Type 0}
    {ctrl_code : BytecodeApi SiteId WriteError Eof Ctrl}
    {field_code : BytecodeApi SiteId WriteError Eof Field}
    {reserved_code : BytecodeApi SiteId WriteError Eof Reserved}
    (ctrl_laws : BytecodeLaws ctrl_code) (field_laws : BytecodeLaws field_code)
    (reserved_laws : BytecodeLaws reserved_code)
    (disjoint : AreDisjoint ctrl_code field_code reserved_code) where
  -- If the operands of an instruction were written, then reading with its opcode, at what was written
  -- and whatever follows, gives that instruction and stops at what follows. This is taken of the
  -- instructions of zk-aluvm, whose opcodes are taken to be apart.
  pub decode-encode_lem :
      (i : Instr Ctrl Field Reserved) (writer written : Bytes)
      → encode_operands ctrl_code field_code reserved_code i writer ≡ ok written
      → (operands : Bytes) × (written ≡ writer ++ operands)
        × ((rest : Bytes)
            → decode_operands ctrl_code field_code reserved_code
                (operands ++ rest)
                (opcode_byte ctrl_code field_code reserved_code i)
              ≡ done (ok (i, rest)))
  unfolding encode_operands decode_operands opcode_byte
  decode-encode_lem (ctrl i) writer written h =
      let (operands, split, read) = ctrl_laws.decode-encode i writer written h in
      (operands, split, λ rest. rw (ctrl_laws.opcode-contained i, read rest))
  decode-encode_lem (gfa i) writer written h =
      let (operands, split, read) = field_laws.decode-encode i writer written h in
      (
        operands,
        split,
        λ rest. rw (disjoint.field_not_ctrl i, field_laws.opcode-contained i, read rest),
      )
  decode-encode_lem (usonic i) writer written h =
      let inside : _ = usonic-contained i in
      let same : writer ≡ written =
        ground (arith, Usonic.encode_operands_lem {WriteError = WriteError} i writer) in
      (
        [],
        sym same ∙ sym (append-nil writer),
        λ rest. rw (
          disjoint.usonic_not_ctrl _ inside,
          disjoint.usonic_not_field _ inside,
          inside,
          (Usonic.decode-opcode {Eof = Eof} i rest).2,
        ),
      )
  decode-encode_lem (reserved i) writer written h =
      let (operands, split, read) = reserved_laws.decode-encode i writer written h in
      (
        operands,
        split,
        λ rest. rw (
          disjoint.reserved_not_ctrl i,
          disjoint.reserved_not_field i,
          disjoint.reserved_not_usonic i,
          read rest,
        ),
      )
