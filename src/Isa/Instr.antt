-- ===== src/Isa/Instr.antt =====
-- src/isa/instr.rs: the instructions. Those of zk-aluvm's own architectures are parameters.
use ultrasonic.Prelude.{Partial, done, panicked}

pub data UsonicInstr : Type 0 where
  ck_nx_i_ro ck_nx_i_ao ck_nx_o_ro ck_nx_o_ao : UsonicInstr
  ld_i_ro ld_i_ao ld_o_ro ld_o_ao : UsonicInstr
  rst_i_ro rst_i_ao rst_o_ro rst_o_ao : UsonicInstr

-- `Instr<Id>`, over `CtrlInstr<Id>`, `FieldInstr` and `ReservedInstr`.
pub data Instr (Ctrl Field Reserved : Type 0) : Type 0 where
  ctrl : Ctrl → Instr Ctrl Field Reserved
  gfa : Field → Instr Ctrl Field Reserved
  usonic : UsonicInstr → Instr Ctrl Field Reserved
  reserved : Reserved → Instr Ctrl Field Reserved

-- `aluvm::gfa::Instr<Id>`, which may have other variants.
pub data GfaInstr (Ctrl Field Reserved Other : Type 0) : Type 0 where
  gfa_ctrl : Ctrl → GfaInstr Ctrl Field Reserved Other
  gfa_gfa : Field → GfaInstr Ctrl Field Reserved Other
  gfa_reserved : Reserved → GfaInstr Ctrl Field Reserved Other
  gfa_other : Other → GfaInstr Ctrl Field Reserved Other

-- `From<aluvm::gfa::Instr<Id>>`
unfoldable pub from_gfa :
    {Ctrl Field Reserved Other : Type 0}
    → GfaInstr Ctrl Field Reserved Other
    → Partial (Instr Ctrl Field Reserved)
from_gfa (gfa_ctrl instr) = done (ctrl instr)
from_gfa (gfa_gfa instr) = done (gfa instr)
from_gfa (gfa_reserved instr) = done (reserved instr)
from_gfa (gfa_other instr) = panicked
