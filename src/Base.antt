-- ===== src/Base.antt =====
-- The names that the other modules share: the libraries', passed on, and those of the children.
mod Tests
mod Lists
mod Equality
mod Integers
pub use Tests.*
pub use Lists.*
pub use Equality.*
unfoldable pub use Integers.{◌+ℤ◌, ◌-ℤ◌, ◌*ℤ◌}
pub use Integers.{
  ℤ, pos, negsuc, pos_part, neg_part, sub_ℕ, ◌≤ℤ◌, ◌<ℤ◌, lt_ℤ, le_ℤ, eq_ℤ, min_ℤ, max_ℤ, +ℤ_parts,
  -ℤ_parts, eq_of_parts, int_laws, eq_ℤ_iff, +ℤ_comm, +ℤ_assoc, *ℤ-+ℤ, *ℤ_zero, *ℤ_one, *ℤ_nonneg,
  int_eq, order_laws, lt_ℤ→lt, lt_ℤ→ge, le_ℤ→le, le_ℤ→gt,
}
pub use Prim.Native.Nat.{ℕ, zero, suc, ◌+◌, ◌-◌, ◌*◌, ◌/◌, ◌%◌, ◌^◌, ◌≤◌, ◌<◌}
pub use Prim.Native.String.{String}
pub use mathlib.Core.Path.{◌≡◌, refl, sym, ap, subst, ◌∙◌}
pub use mathlib.Core.Logic.{◌≢◌, ◌↔◌, ◌⊎◌, inl, inr}
pub use mathlib.Core.Bool.{Bool, true, false, ◌&&◌, ◌||◌, not}
pub use mathlib.Core.Option.{Option, none, some}
pub use mathlib.Core.List.{List, [], ◌∷◌, ◌++◌, map}
pub use native.Mathlib.Omega.{arith}
