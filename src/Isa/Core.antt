-- ===== src/Isa/Core.antt =====
-- src/isa/core.rs: the categories of operation data and the ALU core extension, with one iterator
-- register `UI` for each category.
pub mod Text
use ultrasonic.Prelude.{ℕ, zero, suc, ◌<◌, ◌≡◌, ◌≢◌, Option, arith, IsU16}

pub data Io : Type 0 where
  input output : Io

pub data Mem : Type 0 where
  read_once append_only : Mem

pub record IoCat : Type 0 where
  pub io : Io
  pub mem : Mem

-- `IoCat::IN_RO` and the other constants
abbrev pub in_ro : IoCat
in_ro = record { io = input; mem = read_once }

abbrev pub in_ao : IoCat
in_ao = record { io = input; mem = append_only }

abbrev pub out_ro : IoCat
out_ro = record { io = output; mem = read_once }

abbrev pub out_ao : IoCat
out_ao = record { io = output; mem = append_only }

index_of : Io → Mem → ℕ
index_of input read_once = 0
index_of input append_only = 1
index_of output read_once = 2
index_of output append_only = 3

-- `IoCat::index`
unfoldable pub index : IoCat → ℕ
unfolding index_of
index cat = index_of cat.io cat.mem

-- `[u16; 4]`
pub record Ui : Type 0 where
  pub u₀ : ℕ
  pub u₁ : ℕ
  pub u₂ : ℕ
  pub u₃ : ℕ

-- `ui[i]` and `ui[i] = v`. An index is below 4 (`index-lt`), so the last clause is not reached.
unfoldable pub at : Ui → ℕ → ℕ
at ui zero = ui.u₀
at ui (suc zero) = ui.u₁
at ui (suc (suc zero)) = ui.u₂
at ui (suc (suc (suc zero))) = ui.u₃
at ui _ = 0

unfoldable pub set_at : Ui → ℕ → ℕ → Ui
set_at ui zero v = record ui { u₀ = v }
set_at ui (suc zero) v = record ui { u₁ = v }
set_at ui (suc (suc zero)) v = record ui { u₂ = v }
set_at ui (suc (suc (suc zero))) v = record ui { u₃ = v }
set_at ui _ v = ui

-- `[0; 4]`
abbrev pub zeroes : Ui
zeroes = record { u₀ = 0; u₁ = 0; u₂ = 0; u₃ = 0 }

-- `GfaCore` of zk-aluvm, made from the field order of its `GfaConfig`.
pub record GfaApi (Fe RegE Gfa : Type 0) : Type 0 where
  pub with_order : ℕ → Gfa
  pub get : Gfa → RegE → Option Fe
  pub clr : Gfa → RegE → Gfa
  pub put : Gfa → RegE → Option Fe → Gfa
  pub reset : Gfa → Gfa

-- What its documentation says of the registers: one that was put is read back, and no other changes.
pub record GfaLaws {Fe RegE Gfa : Type 0} (api : GfaApi Fe RegE Gfa) : Type 0 where
  pub get-put_self : (g : Gfa) (r : RegE) (v : Option Fe) → api.get (api.put g r v) r ≡ v
  pub get-put_ne :
      (g : Gfa) (r s : RegE) (v : Option Fe) → r ≢ s → api.get (api.put g r v) s ≡ api.get g s

pub record UsonicCore (Gfa : Type 0) : Type 0 where
  pub ui : Ui
  pub gfa : Gfa

-- The iterators of a core are `u16`.
abbrev pub FitsU16 : {Gfa : Type 0} → UsonicCore Gfa → Type 0
FitsU16 core = (cat : IoCat) → IsU16 (at core.ui (index cat))

-- `impl CoreExt for UsonicCore`
module _ {Fe RegE Gfa : Type 0} (api : GfaApi Fe RegE Gfa) where
  unfoldable pub with_config : ℕ → UsonicCore Gfa
  with_config field_order = record { ui = zeroes; gfa = api.with_order field_order }

  unfoldable pub get : UsonicCore Gfa → RegE → Option Fe
  get core reg = api.get core.gfa reg

  unfoldable pub clr : UsonicCore Gfa → RegE → UsonicCore Gfa
  clr core reg = record core { gfa = api.clr core.gfa reg }

  unfoldable pub put : UsonicCore Gfa → RegE → Option Fe → UsonicCore Gfa
  put core reg val = record core { gfa = api.put core.gfa reg val }

  unfoldable pub reset_all : UsonicCore Gfa → UsonicCore Gfa
  reset_all core = record { ui = zeroes; gfa = api.reset core.gfa }

module _ {Gfa : Type 0} where
  -- `Supercore<GfaCore>`
  unfoldable pub subcore_gfa : UsonicCore Gfa → Gfa
  subcore_gfa core = core.gfa

  unfoldable pub merge_gfa : UsonicCore Gfa → Gfa → UsonicCore Gfa
  merge_gfa core subcore = record core { gfa = subcore }

  -- `Supercore<NoExt>`
  unfoldable pub subcore_no_ext : UsonicCore Gfa → Unit {0}
  subcore_no_ext core = tt

  unfoldable pub merge_no_ext : UsonicCore Gfa → Unit {0} → UsonicCore Gfa
  merge_no_ext core subcore = core

index_of-lt : (io : Io) (mem : Mem) → index_of io mem < 4
unfolding index_of
index_of-lt input read_once = omega arith
index_of-lt input append_only = omega arith
index_of-lt output read_once = omega arith
index_of-lt output append_only = omega arith

pub index-lt : (cat : IoCat) → index cat < 4
unfolding index
index-lt cat = index_of-lt cat.io cat.mem

-- Each category has a register of its own.
pub at-set_at : (ui : Ui) (c : IoCat) (v : ℕ) → at (set_at ui (index c) v) (index c) ≡ v
unfolding at set_at index
at-set_at ui c v = ground arith

pub at-set_at_ne :
    (ui : Ui) (c d : IoCat) (v : ℕ) → c ≢ d → at (set_at ui (index c) v) (index d) ≡ at ui (index d)
unfolding at set_at index
at-set_at_ne ui c d v h = ground arith

pub index-injective : (c d : IoCat) → index c ≡ index d → c ≡ d
unfolding index
index-injective c d h = ground arith
