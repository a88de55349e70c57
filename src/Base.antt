-- ===== src/Base.antt =====
-- What the other modules share: the libraries' names, passed on, and those of the children.
pub mod Tests
pub mod Lists
pub mod Word
pub mod Panics
pub mod Bytes
pub mod Maps
pub mod Perms
pub use Tests.*
pub use Lists.*
pub use Word.*
pub use Panics.*
unfoldable pub use Bytes.*
unfoldable pub use Maps.*
pub use Perms.*
pub use Prim.Native.Nat.{ℕ, zero, suc, ◌+◌, ◌-◌, ◌*◌, ◌/◌, ◌%◌, ◌^◌, ◌≤◌, ◌<◌}
pub use mathlib.Core.Path.{◌≡◌, refl, sym, ap, subst, ◌∙◌}
pub use mathlib.Core.Logic.{◌≢◌, ◌↔◌, ◌⊎◌, inl, inr}
pub use mathlib.Core.Bool.{Bool, true, false, not, ◌&&◌, ◌||◌}
pub use mathlib.Core.Option.{Option, none, some}
pub use mathlib.Core.List.{
  List, [], ◌∷◌, ◌++◌, map, foldl, append_assoc, append-nil, Perm, get_last?,
}
pub use native.Mathlib.Omega.{arith}
