-- ===== src/Base.antt =====
-- The names that the other modules share: library names, passed on, and the children's.
mod Tests
mod Int
mod Table
pub use Tests.*
pub use Int.{
  ℤ, pos, negsuc, pos_part, neg_part, sub_ℕ, ◌≤ℤ◌, ltb_ℤ, eq_ℤ, max_ℤ, min_ℤ, +ℤ_parts, -ℤ_parts,
  eq_of_parts, int_laws, add_sub_cancel, +ℤ-cancel, +ℤ_assoc, +ℤ_comm,
}
unfoldable pub use Int.{◌+ℤ◌, ◌-ℤ◌}
pub use Table.{
  Key, nat_eq, pair_eq, eqb_pair, eqb_pair_iff, Dict, lookup, insert, erase, lookup-insert,
  lookup-erase, Distinct, insert-Distinct, erase-Distinct, lookup-insert_self, has,
}
pub use Prim.Native.Nat.{ℕ, zero, suc, ◌+◌, ◌-◌, ◌*◌, ◌/◌, ◌%◌, ◌^◌, ◌≤◌, ◌<◌}
pub use mathlib.Core.Path.{◌≡◌, refl, sym, ap, ◌∙◌}
pub use mathlib.Core.Logic.{◌≢◌, ◌↔◌, ◌⊎◌, inl, inr}
pub use mathlib.Core.Bool.{Bool, true, false, not, ◌&&◌, ◌||◌}
pub use mathlib.Core.Option.{Option, none, some}
pub use mathlib.Core.List.{List, [], ◌∷◌, ◌++◌, map}
pub use native.Mathlib.Omega.{arith}
