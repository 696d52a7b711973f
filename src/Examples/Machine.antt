-- ===== src/Examples/Machine.antt =====
-- Machines whose registers are functions, whose cores are pairs, and whose foreign instructions do
-- nothing or write one register.
use ultrasonic.Prelude.{
  ℕ, refl, [], ◌∷◌, false, Option, none, some, ◌==◌, ==_iff, ==_refl, if◌then◌else◌, arith,
  Bool-cases, inl, inr,
}
use ultrasonic.Externals.{Externals, Registers, AreDistinct, Status}
use ultrasonic.Isa.Core.{GfaApi, GfaLaws}
use ultrasonic.Isa.Machine.{CoreApi, CoreLaws, InstructionApi, Machine}

abbrev pub outside : Externals
outside = record {
  Fe = ℕ;
  LibId = ℕ;
  LibSite = ℕ;
  Lib = ℕ;
  CoreConfig = ℕ;
  ReservedBytes = λ n. Unit {0};
  RegE = ℕ;
}

abbrev pub names : Registers ℕ
names = record { ea = 0; eb = 1; ec = 2; ed = 3; e1 = 4; e2 = 5; e3 = 6; e4 = 7; e5 = 8; e8 = 9 }

pub names-AreDistinct : AreDistinct names
names-AreDistinct = record {
  ea_eb = λ e. omega arith;
  ea_ec = λ e. omega arith;
  ea_ed = λ e. omega arith;
  eb_ec = λ e. omega arith;
  eb_ed = λ e. omega arith;
  ec_ed = λ e. omega arith;
}

abbrev pub RegisterFile : Type 0
RegisterFile = ℕ → Option ℕ

abbrev pub write : RegisterFile → ℕ → Option ℕ → RegisterFile
write g r v s = if r == s then v else g s

abbrev pub empty : RegisterFile
empty r = none

abbrev pub registers : GfaApi ℕ ℕ RegisterFile
registers = record {
  with_order = λ n. empty;
  get = λ g r. g r;
  clr = λ g r. write g r none;
  put = write;
  reset = λ g. empty;
}

pub register_laws : GfaLaws registers
register_laws = record {
  get-put_self = λ g r v. rw (==_refl r) refl;
  get-put_ne = λ g r s v h. elim (Bool-cases (r == s)) [
    | inl same ↦ absurd (h ((==_iff r s).0 same))
    | inr different ↦ rw different refl
  ];
}

abbrev pub pairs : CoreApi
pairs = record {
  Core = λ X. X × Status;
  cx = λ X c. c.0;
  set_cx = λ X c x. (x, c.1);
  co = λ X c. c.1;
  set_co = λ X c s. (c.0, s);
  subcore = λ X Y f c. (f c.0, c.1);
  merge_subcore = λ X Y merge c s. (merge c.0 s.0, s.1);
}

pub pair_laws : CoreLaws pairs
pair_laws = record {
  cx-set_cx = λ X c x. refl;
  cx-set_co = λ X c s. refl;
  co-set_co = λ X c s. refl;
  co-set_cx = λ X c x. refl;
  cx-merge_subcore = λ X Y merge c s. refl;
}

abbrev idle : {I : Type 0} → InstructionApi pairs ℕ ℕ ℕ ℕ (Unit {0}) I
idle = record {
  is_goto_target = λ i. false;
  local_goto_pos = λ i. 0;
  remote_goto_pos = λ i. none;
  src_regs = λ i. [];
  dst_regs = λ i. [];
  op_data_bytes = λ i. 0;
  ext_data_bytes = λ i. 0;
  exec = λ i site c. (0, c);
}

-- A field instruction `n` puts 1 into the register `n`.
abbrev writing : InstructionApi pairs ℕ ℕ ℕ ℕ RegisterFile ℕ
writing = record {
  is_goto_target = λ i. false;
  local_goto_pos = λ i. 0;
  remote_goto_pos = λ i. none;
  src_regs = λ i. [];
  dst_regs = λ i. i ∷ [];
  op_data_bytes = λ i. 0;
  ext_data_bytes = λ i. 0;
  exec = λ i site c. (0, (write c.0 i (some 1), c.1));
}

abbrev pub vm : Machine outside
vm = record {
  Gfa = RegisterFile;
  Site = ℕ;
  Step = ℕ;
  Goto = ℕ;
  Ctrl = Unit {0};
  Field = ℕ;
  Reserved = Unit {0};
  next = 0;
  no_target = 0;
  regs = names;
  gfa = registers;
  core = pairs;
  ctrl_isa = idle;
  field_isa = writing;
  reserved_isa = idle;
}
