-- ===== src/Prelude.antt =====
-- Names that the modules share: the libraries', passed on, and those of the children below.
mod Tests
mod Lists
mod Words
pub use Tests.*
unfoldable pub use Lists.{eq_bytes}
pub use Lists.{
  length, get_elem?, take, drop, All, length-append, All-append, eq_bytes→eq, eq_bytes_refl,
}
unfoldable pub use Words.{lt64, add64, sub64, min64}
pub use Words.{lt64-eq-ltb, le64-eq-leb, lt64_zero, min64-eq, sub64-eq, positive_range}
pub use Prim.Native.Nat.{ℕ, zero, suc, ◌+◌, ◌-◌, ◌*◌, ◌/◌, ◌%◌, ◌^◌, ◌≤◌, ◌<◌}
pub use mathlib.Core.Path.{◌≡◌, refl, sym, ap, ◌∙◌, fun_ext}
pub use mathlib.Core.Logic.{◌≢◌, ◌↔◌, ◌⊎◌, inl, inr}
pub use mathlib.Core.Bool.{Bool, true, false, not, ◌&&◌, ◌||◌}
pub use mathlib.Core.Option.{Option, none, some}
pub use mathlib.Core.List.{List, [], ◌∷◌, ◌++◌, map}
pub use native.Mathlib.Omega.{arith}
