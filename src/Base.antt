-- ===== src/Base.antt =====
-- The names that the components share: those of the libraries, passed on, and those of the children.
mod Tests
mod Lists
mod Strings
mod Search
mod Dicts
mod Membership
mod Fallible
mod Tracing
pub use Tests.*
pub use Lists.*
unfoldable pub use Strings.*
pub use Search.*
unfoldable pub use Dicts.*
pub use Membership.*
pub use Fallible.*
pub use Tracing.*
pub use Prim.Native.Nat.{ℕ, zero, suc, ◌+◌, ◌-◌, ◌*◌, ◌/◌, ◌%◌, ◌^◌, ◌≤◌, ◌<◌}
pub use mathlib.Core.Path.{◌≡◌, refl, sym, ap, subst, ◌∙◌, ◌≡⟨◌⟩◌, ◌∎}
pub use mathlib.Core.Logic.{◌≢◌, ◌↔◌, ◌⊎◌, inl, inr}
pub use mathlib.Core.Bool.{Bool, true, false, not, ◌&&◌, ◌||◌}
pub use mathlib.Core.Option.{Option, none, some}
pub use mathlib.Core.List.{List, [], ◌∷◌, ◌++◌, Memᴰ, map, append_assoc, append-nil}
pub use native.Mathlib.Omega.{arith}
