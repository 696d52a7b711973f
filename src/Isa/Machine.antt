-- ===== src/Isa/Machine.antt =====
-- The interface to zk-aluvm that src/isa uses: cores, and the instructions of its own architectures.
-- All of it is a parameter.
use ultrasonic.Prelude.{ℕ, ◌≡◌, Bool, Option, List}
use ultrasonic.Externals.{Externals, Registers, Status}
use ultrasonic.Isa.Core.{GfaApi}

-- `Core<Id, Cx>` of zk-aluvm, for each core extension `Cx`: the extension, the register `CO`, and
-- `Core::subcore` and `Core::merge_subcore`, which go by the extension's own.
pub record CoreApi : Type 1 where
  pub Core : Type 0 → Type 0
  pub cx : (X : Type 0) → Core X → X
  pub set_cx : (X : Type 0) → Core X → X → Core X
  pub co : (X : Type 0) → Core X → Status
  pub set_co : (X : Type 0) → Core X → Status → Core X
  pub subcore : (X Y : Type 0) → (X → Y) → Core X → Core Y
  pub merge_subcore : (X Y : Type 0) → (X → Y → X) → Core X → Core Y → Core X

pub record CoreLaws (api : CoreApi) : Type 1 where
  pub cx-set_cx : (X : Type 0) (c : api.Core X) (x : X) → api.cx X (api.set_cx X c x) ≡ x
  pub cx-set_co :
      (X : Type 0) (c : api.Core X) (s : Status) → api.cx X (api.set_co X c s) ≡ api.cx X c
  pub co-set_co : (X : Type 0) (c : api.Core X) (s : Status) → api.co X (api.set_co X c s) ≡ s
  pub co-set_cx : (X : Type 0) (c : api.Core X) (x : X) → api.co X (api.set_cx X c x) ≡ api.co X c
  pub cx-merge_subcore :
      (X Y : Type 0) (merge : X → Y → X) (c : api.Core X) (s : api.Core Y)
      → api.cx X (api.merge_subcore X Y merge c s) ≡ merge (api.cx X c) (api.cx Y s)

-- What `Instr` asks of the instructions of one of zk-aluvm's architectures, over the core extension
-- `Cx`. `Site`, `Step` and `Goto` are `Site<Id>`, `ExecStep<Site<Id>>` and `GotoTarget`.
pub record InstructionApi (api : CoreApi) (RegE Site Step Goto Cx I : Type 0) : Type 0 where
  pub is_goto_target : I → Bool
  pub local_goto_pos : I → Goto
  pub remote_goto_pos : I → Option Site
  pub src_regs : I → List RegE
  pub dst_regs : I → List RegE
  pub op_data_bytes : I → ℕ
  pub ext_data_bytes : I → ℕ
  pub exec : I → Site → api.Core Cx → Step × api.Core Cx

-- The parts together, with `ExecStep::Next`, `GotoTarget::None` and the register names.
pub record Machine (E : Externals) : Type 1 where
  pub Gfa : Type 0
  pub Site : Type 0
  pub Step : Type 0
  pub Goto : Type 0
  pub Ctrl : Type 0
  pub Field : Type 0
  pub Reserved : Type 0
  pub next : Step
  pub no_target : Goto
  pub regs : Registers E.RegE
  pub gfa : GfaApi E.Fe E.RegE Gfa
  pub core : CoreApi
  pub ctrl_isa : InstructionApi core E.RegE Site Step Goto (Unit {0}) Ctrl
  pub field_isa : InstructionApi core E.RegE Site Step Goto Gfa Field
  pub reserved_isa : InstructionApi core E.RegE Site Step Goto (Unit {0}) Reserved
