-- ===== src/Common.antt =====
-- The names that the other modules share: the libraries', passed on, and those of the children.
mod Tests
mod Lists
mod Int
mod Membership
mod Sorting
pub use Tests.*
unfoldable pub use Lists.{select, every}
unfoldable pub use Membership.{insert_by, order_by}
pub use Lists.*
pub use Membership.*
pub use Sorting.*
pub use Int.{ℤ, pos, negsuc}
unfoldable pub use Int.{
  pos_part, neg_part, sub_ℕ, ◌≤ℤ◌, leb_ℤ, ltb_ℤ, eqb_ℤ, wrap64, abs_ℤ, div_ℤ, mod_ℤ,
}
pub use Int.{leb_ℤ→≤ℤ, ltb_ℤ→not}
pub use Prim.Native.Nat.{ℕ, zero, suc, ◌+◌, ◌-◌, ◌*◌, ◌/◌, ◌%◌, ◌^◌, ◌≤◌, ◌<◌, min}
pub use Prim.Native.String.{String}
pub use mathlib.Core.Path.{◌≡◌, refl, sym, ap, ◌∙◌, subst}
pub use mathlib.Core.Logic.{◌≢◌, ◌↔◌, ◌⊎◌, inl, inr}
pub use mathlib.Core.Bool.{Bool, true, false, not, ◌&&◌, ◌||◌}
pub use mathlib.Core.Option.{Option, none, some}
pub use mathlib.Core.List.{List, [], ◌∷◌, ◌++◌, map}
pub use native.Mathlib.Omega.{arith}
