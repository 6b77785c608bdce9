-- ===== src/Common.antt =====
-- Names that every other module shares: the libraries' names passed on, and those of the children.
mod Tests
mod Lists
mod Permutations
mod Maps
mod Dict
pub use Tests.*
pub use Lists.*
pub use Permutations.*
unfoldable pub use Maps.{look_up, insert, erase}
unfoldable pub use Dict.{find, remove, put}
pub use Dict.{
  same_text, same_text_refl, same_text-eq, same_text-false, find-remove, find-remove_other,
  find-put, find-put_other, find-remove_absent, text-cases, Unique, remove-Unique, put-Unique,
}
pub use Maps.{
  look_up-insert, look_up-insert_other, look_up-Elem, insert-new, look_up-erase,
  look_up-erase_other, look_up-erase_absent,
}
pub use Prim.Native.Nat.{ℕ, zero, suc, ◌+◌, ◌-◌, ◌*◌, ◌/◌, ◌%◌, ◌^◌, ◌≤◌, ◌<◌}
pub use Prim.Native.String.{String}
pub use mathlib.Core.Path.{◌≡◌, refl, sym, ap, ap₂, ◌∙◌, subst, fun_ext, ◌≡⟨◌⟩◌, ◌∎}
pub use mathlib.Core.Logic.{◌≢◌, ◌↔◌, ◌⊎◌, inl, inr}
pub use mathlib.Core.Bool.{Bool, true, false, ◌&&◌, ◌||◌, not}
pub use mathlib.Core.Option.{Option, none, some}
pub use mathlib.Core.List.{List, [], ◌∷◌, ◌++◌, map, reverse}
pub use native.Mathlib.Omega.{arith}
