-- ===== src/Base.antt =====
-- The names that the other modules share: the libraries', passed on, and those of the children.
mod Tests
mod Lists
mod Texts
mod Rows
mod Finds
mod Maps
mod Sorting
pub use Tests.*
pub use Lists.*
unfoldable pub use Texts.{text_eq}
pub use Texts.{Text, codes, text_eq_iff, text_eq_refl, text_eq_sym}
unfoldable pub use Rows.{first_where, all_where, update_where, delete_where, has_row}
pub use Rows.{
  All, All-imp, All-append, All-delete_where, All-update_where, All-all_where, All-has_row,
  All-first_where, Unique, Unique-delete_where, Unique-update_where, Unique-snoc, first_where-true,
  first_where-none, first_where-snoc, delete_where-snoc, first_where-delete_where,
  first_where-update_where, delete_where_id, All-delete_where_true, length-update_where,
  length-delete_where-le,
}
pub use Finds.{
  has_row-append, has_row-update_where, has_row-delete_where, has_row-first_where,
  first_where-has_row, first_where-update_other, first_where-delete_other, first_where-delete_same,
  first_where-append_other, first_where-append_found, first_where-All, first_where-delete_unique,
}
unfoldable pub use Maps.{get, put, remove}
pub use Maps.{
  Map, get-put, get-remove, length-remove-le, Keys, Keys-put, get-delete_where, get-delete_absent,
}
unfoldable pub use Sorting.{insert_by, sort_by}
pub use Sorting.{insert_by-All, sort_by-All, sort_by-has_row}
pub use Prim.Native.Nat.{ℕ, zero, suc, ◌+◌, ◌-◌, ◌*◌, ◌/◌, ◌%◌, ◌^◌, ◌≤◌, ◌<◌}
pub use Prim.Native.String.{String}
pub use mathlib.Core.Path.{◌≡◌, refl, sym, ap, ap₂, ◌∙◌, subst}
pub use mathlib.Core.Logic.{◌≢◌, ◌↔◌, ◌⊎◌, inl, inr}
pub use mathlib.Core.Bool.{Bool, true, false, not, ◌&&◌, ◌||◌}
pub use mathlib.Core.Option.{Option, none, some}
pub use mathlib.Core.List.{List, [], ◌∷◌, ◌++◌, map}
pub use native.Mathlib.Omega.{arith}
