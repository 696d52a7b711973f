-- ===== src/Serde/RawData.antt =====
-- `impl_serde_str_bin_wrapper!(RawData, SmallBlob)` of src/state.rs.
use ultrasonic.Prelude.{refl, Bytes}
use ultrasonic.State.RawData.{HexApi, HexLaws, from_str, to_string, from_str-to_string}
use ultrasonic.Serde.{Wrapped}
use ultrasonic.Serde.Wrapper.{ReadsBack}

module _ {HexError : Type 0} (hex : HexApi HexError) where
  unfoldable pub raw_data_wrapped : Wrapped Bytes Bytes HexError
  raw_data_wrapped = record {
    to_string = to_string hex;
    from_str = from_str hex;
    unwrap = λ raw. raw;
    wrap = λ blob. blob;
  }

-- All raw data reads back.
pub raw_data-ReadsBack :
    {HexError : Type 0} {hex : HexApi HexError} (laws : HexLaws hex) (raw : Bytes)
    → ReadsBack (raw_data_wrapped hex) raw
unfolding raw_data_wrapped
raw_data-ReadsBack laws raw = record {
  from_str-to_string = (from_str-to_string laws raw).0;
  wrap-unwrap = refl;
}
