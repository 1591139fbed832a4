-- ===== src/Base.antt =====
-- The names that the other modules share: the libraries', passed on, and those of the children.
pub mod Tests
pub mod Lists
pub mod Outcome
pub mod Strings
pub mod Assoc
pub mod Loops
pub mod Sort
pub mod Number
pub mod Base64
pub mod Scan
pub mod Utf8
pub mod Urls
pub use Tests.*
pub use Lists.*
pub use Outcome.*
unfoldable pub use Strings.*
unfoldable pub use Assoc.*
unfoldable pub use Loops.*
unfoldable pub use Sort.*
unfoldable pub use Number.*
unfoldable pub use Scan.*
unfoldable pub use Utf8.*
pub use Urls.*
pub use Prim.Native.Nat.{ℕ, zero, suc, ◌+◌, ◌-◌, ◌*◌, ◌/◌, ◌%◌, ◌^◌, ◌≤◌, ◌<◌, min}
pub use mathlib.Core.Path.{◌≡◌, refl, sym, ap, ◌∙◌, subst}
pub use mathlib.Core.Logic.{◌≢◌, ◌↔◌, ◌⊎◌, inl, inr}
pub use mathlib.Core.Bool.{Bool, true, false, not, ◌&&◌, ◌||◌}
pub use mathlib.Core.Option.{Option, none, some}
pub use mathlib.Core.List.{List, [], ◌∷◌, ◌++◌, map}
pub use native.Mathlib.Omega.{arith}
