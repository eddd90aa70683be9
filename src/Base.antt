-- ===== src/Base.antt =====
-- The names that the other modules share: the libraries' names, passed on, and the Boolean tests,
-- lists, byte strings and results of the child modules.
mod Tests
mod Lists
mod Errors
mod Text
mod Int
mod Maps
pub mod Bits
pub mod BitStrings
pub use Tests.*
unfoldable pub use Lists.{bytes_eq}
pub use Lists.*
pub use Errors.*
pub use Int.*
unfoldable pub use Maps.{Keyed_Bytes}
pub use Maps.*
unfoldable pub use Text.{codes}
pub use Prim.Native.Nat.{ℕ, zero, suc, ◌+◌, ◌-◌, ◌*◌, ◌/◌, ◌%◌, ◌^◌, ◌≤◌, ◌<◌}
pub use mathlib.Core.Path.{◌≡◌, refl, sym, ap, ap₂, ◌∙◌}
pub use mathlib.Core.Logic.{◌≢◌, ◌↔◌, ◌⊎◌, inl, inr}
pub use mathlib.Core.Bool.{Bool, true, false, not, ◌&&◌, ◌||◌}
pub use mathlib.Core.Option.{Option, none, some}
pub use mathlib.Core.List.{List, [], ◌∷◌, ◌++◌, map, append-nil, append_assoc}
pub use native.Mathlib.Omega.{arith}
