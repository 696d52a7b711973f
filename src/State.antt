-- ===== src/State.antt =====
-- src/state.rs: values, tokens of authority and memory cells.
pub mod Value
pub mod Auth
pub mod RawData
use ultrasonic.Prelude.{Option, none, some, Bytes}
use ultrasonic.Externals.{Externals}
use Value.{StateValue, new}
use Auth.{AuthToken}

pub record StateCell (E : Externals) : Type 0 where
  pub «data» : StateValue E.Fe
  pub auth : AuthToken E.Fe
  pub lock : Option E.LibSite

-- `RawData` is the bytes of its blob.
pub record StateData (Fe : Type 0) : Type 0 where
  pub value : StateValue Fe
  pub raw : Option Bytes

module _ {Fe : Type 0} where
  -- `StateData::new`
  unfoldable pub new_data : Fe → Fe → StateData Fe
  unfolding new
  new_data ty val = record { value = new ty val; raw = none }

  -- `StateData::with_raw`
  unfoldable pub with_raw : Fe → Fe → Bytes → StateData Fe
  unfolding new
  with_raw ty val raw = record { value = new ty val; raw = some raw }
