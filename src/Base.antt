-- ===== src/Base.antt =====
-- Names that the other modules share: the libraries', passed on, with machine words, tests and
-- families of objects. This file models no code of its own; its children say which they serve.
mod Tests
mod Families
mod Words
mod Lists
pub use Tests.*
unfoldable pub use Families.*
unfoldable pub use Words.*
pub use Lists.*
pub use Prim.Native.Nat.{ℕ, zero, suc, ◌+◌, ◌-◌, ◌*◌, ◌/◌, ◌%◌, ◌^◌, ◌≤◌, ◌<◌}
pub use mathlib.Core.Path.{◌≡◌, refl, sym, ap, ◌∙◌, subst, fun_ext}
pub use mathlib.Core.Logic.{◌≢◌, ◌↔◌, ◌⊎◌, inl, inr}
pub use mathlib.Core.Bool.{Bool, true, false, not, ◌&&◌, ◌||◌}
pub use mathlib.Core.Option.{Option, none, some}
pub use mathlib.Core.List.{List, [], ◌∷◌, ◌++◌, map, append-nil, append_assoc}
pub use native.Mathlib.Omega.{arith}
pub use native.Mathlib.Nat.{mod-lt, mod-eq_of_lt, add-mod_left, add-mod_right}
unfoldable pub use native.Mathlib.Decide.{dec_le, dec_lt, ℕ_discrete}
