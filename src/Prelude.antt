-- ===== src/Prelude.antt =====
-- The names that the other modules share: the libraries', passed on, and those of the children.
mod Tests
mod Lists
mod Strings
mod Sorting
mod Maps
mod Truthy
pub mod Missing
pub mod Memberships
unfoldable pub use Truthy.{truthy_number, truthy_text}
pub use Truthy.{same_option}
unfoldable pub use Maps.{is_some, map_get, map_set, map_keys, map_of}
pub use Maps.{any-keep, map_get-map_set, map_get-map_of, any-map_keys}
unfoldable pub use Sorting.{sort_by}
pub use Sorting.{
  head?, head?-sort_by-some, head?-sort_by-none, keep-All, keep-Memᴰ, Memᴰ-keep, keep-nil,
  Memᴰ-cons_cases,
}
pub use Tests.*
pub use Lists.*
pub use Strings.{Text, codes, same_text, same_text_iff, to_lower}
unfoldable pub use Strings.{show, join}
pub use Prim.Native.Nat.{ℕ, zero, suc, ◌+◌, ◌-◌, ◌*◌, ◌/◌, ◌%◌, ◌^◌, ◌≤◌, ◌<◌, min, max}
pub use mathlib.Core.Path.{◌≡◌, refl, sym, ap, ◌∙◌, subst}
pub use mathlib.Core.Logic.{◌≢◌, ◌↔◌, ◌⊎◌, inl, inr}
pub use mathlib.Core.Bool.{Bool, true, false, not, ◌&&◌, ◌||◌}
pub use mathlib.Core.Option.{Option, none, some}
pub use mathlib.Core.List.{List, [], ◌∷◌, ◌++◌, map, Memᴰ}
pub use native.Mathlib.Omega.{arith}
