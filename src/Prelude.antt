-- ===== src/Prelude.antt =====
-- The names that every component shares: the libraries', passed on, tests on numbers, lists indexed
-- by native numbers, and the result of code that can panic.
mod Tests
mod Lists
mod ByteStrings
mod Orders
pub use Tests.*
pub use Lists.*
unfoldable pub use Orders.*
unfoldable pub use ByteStrings.*
pub use Prim.Native.Nat.{ℕ, zero, suc, ◌+◌, ◌-◌, ◌*◌, ◌/◌, ◌%◌, ◌^◌, ◌≤◌, ◌<◌}
pub use mathlib.Core.Path.{◌≡◌, refl, sym, ap, ap₂, ◌∙◌}
pub use mathlib.Core.Logic.{◌≢◌, ◌↔◌, ◌⊎◌, inl, inr}
pub use mathlib.Core.Bool.{Bool, true, false, ◌&&◌, ◌||◌}
pub use mathlib.Core.Option.{Option, none, some}
pub use mathlib.Core.List.{List, [], ◌∷◌, ◌++◌, map}
pub use native.Mathlib.Omega.{arith}

-- What a call gives that may panic instead of returning.
pub data Partial {ℓ} (A : Type ℓ) : Type ℓ where
  done : A → Partial A
  panicked : Partial A

-- `Result<A, E>`.
pub data Result {ℓ κ} (A : Type ℓ) (E : Type κ) : Type (ℓ ⊔ κ) where
  ok : A → Result A E
  err : E → Result A E

-- The numbers that a `u16` holds.
abbrev pub IsU16 : ℕ → Type 0
IsU16 n = n < 65536
