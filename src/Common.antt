-- ===== src/Common.antt =====
-- The names that the other modules share: those of the libraries, passed on, and those of the
-- children: Boolean tests, lists, string-keyed maps, signed integers and throwing results.
mod Tests
mod Lists
mod Int
pub mod Map
mod Throwing
pub use Tests.*
pub use Lists.*
pub use Int.{ℤ, pos, negsuc, ltb_ℤ, leb_ℤ, is_neg, sub_ℕ, to_int64, to_int32, to_uint32, to_uint64}
pub use Int.{to_int64_small, pos_part}
pub use Throwing.*
pub use Prim.Native.Nat.{ℕ, zero, suc, ◌+◌, ◌-◌, ◌*◌, ◌/◌, ◌%◌, ◌^◌, ◌≤◌, ◌<◌}
pub use Prim.Native.String.{String, ◌++◌ as ◌<>◌}
pub use mathlib.Core.Path.{◌≡◌, refl, sym, ap, ◌∙◌}
pub use mathlib.Core.Logic.{◌≢◌, ◌↔◌, ◌⊎◌, inl, inr}
pub use mathlib.Core.Bool.{Bool, true, false, not, ◌&&◌, ◌||◌}
pub use mathlib.Core.Option.{Option, none, some}
pub use mathlib.Core.List.{List, [], ◌∷◌, ◌++◌, map}
pub use native.Mathlib.Omega.{arith}
pub use text.Mathlib.TextEquality.{eq_iff}
