-- ===== src/Externals.antt =====
-- The types of other crates that the data of src/ is built from, and `fe256` with the conversions
-- that src/state.rs calls. They are parameters: nothing is assumed of them but what a theorem's
-- hypotheses say.
use ultrasonic.Prelude.{ℕ, ◌^◌, ◌<◌, ◌≡◌, ◌≢◌, Bytes, IsByte, All, length, le_value}

-- `fe256`, `LibId`, `LibSite`, `Lib`, `CoreConfig` and `RegE` of zk-aluvm, and `ReservedBytes<N>` of
-- commit_verify.
pub record Externals : Type 1 where
  pub Fe : Type 0
  pub LibId : Type 0
  pub LibSite : Type 0
  pub Lib : Type 0
  pub CoreConfig : Type 0
  pub ReservedBytes : ℕ → Type 0
  pub RegE : Type 0

-- `fe256::from([u8; 32])`, `fe256::to_u256` and `u256::to_le_bytes`.
pub record FieldApi (Fe : Type 0) : Type 0 where
  pub from_le_bytes : Bytes → Fe
  pub to_u256 : Fe → ℕ
  pub to_le_bytes : ℕ → Bytes

-- What their documentation says: bytes are read and written least significant first, a 32-byte
-- array below the order of every field that is in use is read to its value, and an element is
-- determined by its value.
pub record FieldLaws {Fe : Type 0} (api : FieldApi Fe) : Type 0 where
  pub to_u256-from_le_bytes :
      (b : Bytes)
      → length b ≡ 32
      → All IsByte b
      → le_value b < 2 ^ 240
      → api.to_u256 (api.from_le_bytes b) ≡ le_value b
  pub to_u256-lt : (x : Fe) → api.to_u256 x < 2 ^ 256
  pub to_u256-injective : (x y : Fe) → api.to_u256 x ≡ api.to_u256 y → x ≡ y
  pub length-to_le_bytes : (n : ℕ) → length (api.to_le_bytes n) ≡ 32
  pub to_le_bytes-IsByte : (n : ℕ) → All IsByte (api.to_le_bytes n)
  pub le_value-to_le_bytes : (n : ℕ) → n < 2 ^ 256 → le_value (api.to_le_bytes n) ≡ n

-- The registers of `RegE` that the code names.
pub record Registers (RegE : Type 0) : Type 0 where
  pub ea : RegE
  pub eb : RegE
  pub ec : RegE
  pub ed : RegE
  pub e1 : RegE
  pub e2 : RegE
  pub e3 : RegE
  pub e4 : RegE
  pub e5 : RegE
  pub e8 : RegE

-- `EA` to `ED` are different registers.
pub record AreDistinct {RegE : Type 0} (regs : Registers RegE) : Type 0 where
  pub ea_eb : regs.ea ≢ regs.eb
  pub ea_ec : regs.ea ≢ regs.ec
  pub ea_ed : regs.ea ≢ regs.ed
  pub eb_ec : regs.eb ≢ regs.ec
  pub eb_ed : regs.eb ≢ regs.ed
  pub ec_ed : regs.ec ≢ regs.ed

-- `Status` of zk-aluvm: the value of the `CO` and `CK` registers, and of a run.
pub data Status : Type 0 where
  ok fail : Status
