-- ===== src/Prelude.antt =====
-- The names that the other modules share: the libraries', passed on, and those of the children.
mod Tests
mod Lists
pub mod Equality
pub mod Int
pub use Tests.*
pub use Lists.*
pub use Equality.{
  list_beq_iff, option_beq_iff, Eq, ◌==◌, nat_eq, list_eq, option_eq, pair_eq, beq_refl, beq_of_iff,
  contains-append,
}
pub use Equality.{contains-keep, not-contains-drop, contains-drop_last, Distinct, append-Distinct}
unfoldable pub use Equality.{contains, list_beq, option_beq}
pub use Int.{ℤ, pos, negsuc, int_eq, int_leb, add_nat, sub_nat, pred_int}
pub use Prim.Native.Nat.{ℕ, zero, suc, ◌+◌, ◌-◌, ◌*◌, ◌/◌, ◌%◌, ◌^◌, ◌≤◌, ◌<◌}
pub use Prim.Native.String.{String}
pub use mathlib.Core.Path.{◌≡◌, refl, sym, ap, ◌∙◌}
pub use mathlib.Core.Logic.{◌≢◌, ◌↔◌, ◌⊎◌, inl, inr}
pub use mathlib.Core.Bool.{Bool, true, false, not, ◌&&◌, ◌||◌}
pub use mathlib.Core.Option.{Option, none, some}
pub use mathlib.Core.List.{List, [], ◌∷◌, ◌++◌, map, append-nil, append_assoc}
pub use native.Mathlib.Omega.{arith}
