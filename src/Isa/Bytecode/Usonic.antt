-- ===== src/Isa/Bytecode/Usonic.antt =====
-- The opcodes of `UsonicInstr` (src/isa/bytecode.rs).
use ultrasonic.Prelude.{
  ℕ, zero, suc, true, false, ◌+◌, ◌-◌, ◌≤◌, ◌<◌, ◌≡◌, refl, ltb, ◌==◌, if◌then◌else◌, Option, none,
  Bytes, Partial, done, panicked, Result, ok, arith,
}
use ultrasonic.Isa.Instr.{
  UsonicInstr, ck_nx_i_ro, ck_nx_i_ao, ck_nx_o_ro, ck_nx_o_ao, ld_i_ro, ld_i_ao, ld_o_ro, ld_o_ao,
  rst_i_ro, rst_i_ao, rst_o_ro, rst_o_ao,
}

abbrev pub start : ℕ
start = 128

-- `START + RSTOAO`
abbrev pub end : ℕ
end = start + 11

-- The constants `CKNXIRO` to `RSTOAO`, in the order of the arms.
offset : UsonicInstr → ℕ
offset ck_nx_i_ro = 0
offset ck_nx_i_ao = 1
offset ck_nx_o_ro = 2
offset ck_nx_o_ao = 3
offset ld_i_ro = 4
offset ld_i_ao = 5
offset ld_o_ro = 6
offset ld_o_ao = 7
offset rst_i_ro = 8
offset rst_i_ao = 9
offset rst_o_ro = 10
offset rst_o_ao = 11

unfoldable pub opcode_byte : UsonicInstr → ℕ
unfolding offset
opcode_byte instr = start + offset instr

unfoldable pub code_byte_len : UsonicInstr → ℕ
code_byte_len instr = 1

unfoldable pub external_ref : (SiteId : Type 0) → UsonicInstr → Option SiteId
external_ref SiteId instr = none

-- No arm writes anything.
unfoldable pub encode_operands :
    {WriteError : Type 0} → UsonicInstr → Bytes → Result Bytes WriteError
encode_operands ck_nx_i_ro writer = ok writer
encode_operands _ writer = ok writer

-- The `match` on `opcode - START`.
instr_at : ℕ → Partial UsonicInstr
instr_at k =
    if k == 0
    then done ck_nx_i_ro
    else if k == 1
    then done ck_nx_i_ao
    else if k == 2
    then done ck_nx_o_ro
    else if k == 3
    then done ck_nx_o_ao
    else if k == 4
    then done ld_i_ro
    else if k == 5
    then done ld_i_ao
    else if k == 6
    then done ld_o_ro
    else if k == 7
    then done ld_o_ao
    else if k == 8
    then done rst_i_ro
    else if k == 9
    then done rst_i_ao
    else if k == 10
    then done rst_o_ro
    else if k == 11
    then done rst_o_ao
    else panicked

reading : {Eof : Type 0} → Bytes → Partial UsonicInstr → Partial (Result (UsonicInstr × Bytes) Eof)
reading reader (done instr) = done (ok (instr, reader))
reading reader panicked = panicked

-- An opcode below `START` does not subtract: in a debug build that panics, and in a release build it
-- wraps to a number above 11, which is not matched either.
unfoldable pub decode_operands :
    {Eof : Type 0} → Bytes → ℕ → Partial (Result (UsonicInstr × Bytes) Eof)
unfolding instr_at reading
decode_operands reader opcode =
    if ltb opcode start then panicked else reading reader (instr_at (opcode - start))

instr_at-total :
    (k : ℕ) → k ≤ 11 → (instr : UsonicInstr) × (instr_at k ≡ done instr) × (offset instr ≡ k)
unfolding instr_at offset
instr_at-total zero h = (ck_nx_i_ro, refl, refl)
instr_at-total (suc zero) h = (ck_nx_i_ao, refl, refl)
instr_at-total (suc (suc zero)) h = (ck_nx_o_ro, refl, refl)
instr_at-total (suc (suc (suc zero))) h = (ck_nx_o_ao, refl, refl)
instr_at-total (suc (suc (suc (suc zero)))) h = (ld_i_ro, refl, refl)
instr_at-total (suc (suc (suc (suc (suc zero))))) h = (ld_i_ao, refl, refl)
instr_at-total (suc (suc (suc (suc (suc (suc zero)))))) h = (ld_o_ro, refl, refl)
instr_at-total (suc (suc (suc (suc (suc (suc (suc zero))))))) h = (ld_o_ao, refl, refl)
instr_at-total (suc (suc (suc (suc (suc (suc (suc (suc zero)))))))) h = (rst_i_ro, refl, refl)
instr_at-total (suc (suc (suc (suc (suc (suc (suc (suc (suc zero))))))))) h = (rst_i_ao, refl, refl)
instr_at-total (suc (suc (suc (suc (suc (suc (suc (suc (suc (suc zero)))))))))) h =
    (rst_o_ro, refl, refl)
instr_at-total (suc (suc (suc (suc (suc (suc (suc (suc (suc (suc (suc zero))))))))))) h =
    (rst_o_ao, refl, refl)
instr_at-total (suc (suc (suc (suc (suc (suc (suc (suc (suc (suc (suc (suc k)))))))))))) h =
    absurd (omega arith)

instr_at-beyond : (k : ℕ) → 11 < k → instr_at k ≡ panicked
unfolding instr_at
instr_at-beyond k h = ground arith

pub encode_operands_lem :
    {WriteError : Type 0} (instr : UsonicInstr) (writer : Bytes)
    → encode_operands {WriteError = WriteError} instr writer ≡ ok writer
unfolding encode_operands
encode_operands_lem ck_nx_i_ro writer = refl
encode_operands_lem _ writer = refl

module _ {Eof : Type 0} where
  -- The opcode of an instruction is in the range, and reads back to that instruction with nothing
  -- taken from the operands.
  pub decode-opcode :
      (instr : UsonicInstr) (reader : Bytes)
      → (start ≤ opcode_byte instr)
        × (opcode_byte instr ≤ end)
        × (decode_operands {Eof = Eof} reader (opcode_byte instr) ≡ done (ok (instr, reader)))
  unfolding opcode_byte decode_operands
  decode-opcode ck_nx_i_ro reader = (omega arith, omega arith, refl)
  decode-opcode _ reader = (omega arith, omega arith, refl)

  -- Every opcode of the range is that of an instruction, and any other byte is a panic.
  pub opcode-decode :
      (opcode : ℕ) (reader : Bytes)
      → (start ≤ opcode
          → opcode ≤ end
          → (instr : UsonicInstr) × (decode_operands {Eof = Eof} reader opcode
              ≡ done (ok (instr, reader)))
            × (opcode_byte instr ≡ opcode))
        × (opcode < start → decode_operands {Eof = Eof} reader opcode ≡ panicked)
        × (end < opcode → decode_operands {Eof = Eof} reader opcode ≡ panicked)
  unfolding opcode_byte decode_operands
  opcode-decode opcode reader = (
    λ above within.
        let (instr, read, same) = instr_at-total (opcode - start) (omega arith) in
        (instr, rw (not_below above, read), omega (arith, same)),
    λ below. rw (below_start below),
    λ beyond. rw (not_below (omega arith), instr_at-beyond (opcode - start) (omega arith)),
  )
    where
      not_below : start ≤ opcode → ltb opcode start ≡ false
      not_below h = ground arith

      below_start : opcode < start → ltb opcode start ≡ true
      below_start h = ground arith
