-- ===== src/Prelude.antt =====
-- The names that the other modules share: the libraries', passed on, and those of the children.
pub mod Tests
pub mod Lists
pub mod Texts
pub mod Tables
pub mod Decimal
pub mod Newest
pub use Tests.*
pub use Lists.{
  length, All, find-update_where, find-holds, find-Mem, any-find, any-Mem, Mem-any,
  count-update_where, any-update_where,
}
pub use Tables.{
  All-update_where, All-append_one, All-update_found, count_where-update_found, count_where-any,
  count_where-append_one, count_where-update_where_same, count_where-none, length-select_where,
  length-map, find-some, select-update_where, includes-map_select, includes-append_one, find-none,
  any-imp, any-same,
}
pub use Texts.{codes, to_lower_case_idem}
unfoldable pub use Tests.{text_beq}
unfoldable pub use Texts.{to_lower_case}
unfoldable pub use Lists.{any, find, count_where, select_where, update_where}
unfoldable pub use Tables.{includes}
pub use Prim.Native.Nat.{ℕ, zero, suc, ◌+◌, ◌-◌, ◌*◌, ◌^◌, ◌≤◌, ◌<◌, min}
pub use Prim.Native.String.{String}
pub use mathlib.Core.Path.{◌≡◌, refl, sym, ap, subst, ◌∙◌}
pub use mathlib.Core.Logic.{◌≢◌, ◌↔◌, ◌⊎◌, inl, inr}
pub use mathlib.Core.Bool.{Bool, true, false, not, ◌&&◌, ◌||◌}
pub use mathlib.Core.Option.{Option, none, some}
pub use mathlib.Core.List.{List, [], ◌∷◌, ◌++◌, Memᴰ}
unfoldable pub use mathlib.Core.List.{map}
pub use native.Mathlib.Omega.{arith}
pub use text.Mathlib.TextEquality.{eq_iff}
