-- ===== src/Base.antt =====
-- The names that the other modules share: the libraries', passed on, and those of the children,
-- which hold the Boolean tests, the lists measured by native numbers, and JavaScript's strings.
mod Tests
mod Lists
mod Strings
mod Sort
mod Int
mod Decimal
pub use Tests.*
pub use Lists.*
unfoldable pub use Strings.*
unfoldable pub use Sort.*
pub use Int.*
unfoldable pub use Decimal.*
pub use Prim.Native.Nat.{ℕ, zero, suc, ◌+◌, ◌-◌, ◌*◌, ◌/◌, ◌%◌, ◌^◌, ◌≤◌, ◌<◌, min, max}
pub use Prim.Native.String.{String}
pub use mathlib.Core.Path.{◌≡◌, refl, sym, ap, ◌∙◌, subst, ◌≡⟨◌⟩◌, ◌∎}
pub use mathlib.Core.Logic.{◌≢◌, ◌↔◌, ◌⊎◌, inl, inr}
pub use mathlib.Core.Bool.{Bool, true, false, not, ◌&&◌, ◌||◌}
pub use mathlib.Core.Option.{Option, none, some}
pub use mathlib.Core.List.{List, [], ◌∷◌, ◌++◌, map, append-nil, append_assoc}
pub use native.Mathlib.Omega.{arith}
