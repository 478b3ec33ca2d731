-- ===== src/Base.antt =====
-- The names that the components share: the libraries', passed on, and those of the children.
mod Tests
mod Equality
mod Lists
mod Results
pub use Tests.*
pub use Lists.{
  length, get_elem?, take, drop, All, length-append, take-append-drop, length-take, length-drop,
  length-filter, find?-holds, all-eq-true_of_filter,
}
unfoldable pub use Lists.{any, all, filter, find?}
pub use Equality.{
  HasEq, ◌==◌, nat_eq, string_eq, beq_refl, eq_of_beq, beq_of_ne, includes-append,
  includes-without_self, includes-without_ne,
}
unfoldable pub use Equality.{includes, without}
pub use Results.*
pub use Prim.Native.Nat.{ℕ, zero, suc, ◌+◌, ◌-◌, ◌*◌, ◌/◌, ◌%◌, ◌^◌, ◌≤◌, ◌<◌, min}
pub use Prim.Native.String.{String}
pub use mathlib.Core.Path.{◌≡◌, refl, sym, ap, subst, ◌∙◌}
pub use mathlib.Core.Logic.{◌≢◌, ◌↔◌, ◌⊎◌, inl, inr}
pub use mathlib.Core.Bool.{Bool, true, false, not, ◌&&◌, ◌||◌}
pub use mathlib.Core.Option.{Option, none, some}
pub use mathlib.Core.List.{List, [], ◌∷◌, ◌++◌, map}
pub use native.Mathlib.Omega.{arith}
pub use text.Mathlib.TextEquality.{eq_iff}
