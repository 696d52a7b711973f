-- ===== src/Isa/Bytecode.antt =====
-- src/isa/bytecode.rs: opcodes, and the reading of an instruction back from them. A writer is the
-- bytes written so far, and a reader the bytes left.
pub mod Usonic
pub mod RoundTrip
use ultrasonic.Prelude.{
  ℕ, Bool, ◌&&◌, leb, if◌then◌else◌, Option, Bytes, Partial, done, panicked, Result, ok, err,
}
use ultrasonic.Isa.Instr.{Instr, ctrl, gfa, usonic, reserved}
use Usonic

-- `Bytecode` of one of zk-aluvm's architectures, whose opcodes are a range, ends included.
pub record BytecodeApi (SiteId WriteError Eof I : Type 0) : Type 0 where
  pub op_first : ℕ
  pub op_last : ℕ
  pub opcode_byte : I → ℕ
  pub code_byte_len : I → ℕ
  pub external_ref : I → Option SiteId
  pub encode_operands : I → Bytes → Result Bytes WriteError
  pub decode_operands : Bytes → ℕ → Partial (Result (I × Bytes) Eof)

-- `RangeInclusive::contains`
abbrev pub contains : ℕ → ℕ → ℕ → Bool
contains first last op = leb first op && leb op last

-- `Result::map` with a constructor of `Instr`, on what was read.
map_read :
    {I J Eof : Type 0}
    → (I → J)
    → Partial (Result (I × Bytes) Eof)
    → Partial (Result (J × Bytes) Eof)
map_read f (done (ok (instr, reader))) = done (ok (f instr, reader))
map_read f (done (err e)) = done (err e)
map_read f panicked = panicked

-- `Bytecode for Instr`
module _ {SiteId WriteError Eof Ctrl Field Reserved : Type 0}
    (ctrl_code : BytecodeApi SiteId WriteError Eof Ctrl)
    (field_code : BytecodeApi SiteId WriteError Eof Field)
    (reserved_code : BytecodeApi SiteId WriteError Eof Reserved) where
  -- `op_range`
  abbrev pub op_range : ℕ × ℕ
  op_range = (0, 0xFF)

  unfoldable pub opcode_byte : Instr Ctrl Field Reserved → ℕ
  opcode_byte (ctrl instr) = ctrl_code.opcode_byte instr
  opcode_byte (gfa instr) = field_code.opcode_byte instr
  opcode_byte (usonic instr) = Usonic.opcode_byte instr
  opcode_byte (reserved instr) = reserved_code.opcode_byte instr

  unfoldable pub code_byte_len : Instr Ctrl Field Reserved → ℕ
  code_byte_len (ctrl instr) = ctrl_code.code_byte_len instr
  code_byte_len (gfa instr) = field_code.code_byte_len instr
  code_byte_len (usonic instr) = Usonic.code_byte_len instr
  code_byte_len (reserved instr) = reserved_code.code_byte_len instr

  unfoldable pub external_ref : Instr Ctrl Field Reserved → Option SiteId
  external_ref (ctrl instr) = ctrl_code.external_ref instr
  external_ref (gfa instr) = field_code.external_ref instr
  external_ref (usonic instr) = Usonic.external_ref SiteId instr
  external_ref (reserved instr) = reserved_code.external_ref instr

  unfoldable pub encode_operands : Instr Ctrl Field Reserved → Bytes → Result Bytes WriteError
  encode_operands (ctrl instr) writer = ctrl_code.encode_operands instr writer
  encode_operands (gfa instr) writer = field_code.encode_operands instr writer
  encode_operands (usonic instr) writer = Usonic.encode_operands instr writer
  encode_operands (reserved instr) writer = reserved_code.encode_operands instr writer

  unfoldable pub decode_operands :
      Bytes → ℕ → Partial (Result (Instr Ctrl Field Reserved × Bytes) Eof)
  unfolding map_read
  decode_operands reader opcode =
      if contains ctrl_code.op_first ctrl_code.op_last opcode
      then map_read ctrl (ctrl_code.decode_operands reader opcode)
      else if contains field_code.op_first field_code.op_last opcode
      then map_read gfa (field_code.decode_operands reader opcode)
      else if contains Usonic.start Usonic.end opcode
      then map_read usonic (Usonic.decode_operands reader opcode)
      else map_read reserved (reserved_code.decode_operands reader opcode)
