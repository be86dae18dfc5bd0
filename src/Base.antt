-- ===== src/Base.antt =====
-- The names that the other modules share: the libraries', passed on, and those of the children
-- (Boolean tests, lists over the native numbers, byte strings, dictionaries, results).
mod Tests
mod Lists
mod Text
mod Dict
mod Outcomes
pub use Tests.*
pub use Lists.*
unfoldable pub use Text.{str_eq, contains, cut_line}
pub use Text.{
  Str, codes, has_prefix, newline, str_eq_iff, str_eq_refl, str_eq-false, contains-append,
}
unfoldable pub use Dict.{lookup, insert}
pub use Dict.{Map, lookup-insert, Distinct, lookup-middle, insert-middle, insert-absent}
pub use Dict.{Distinct-insert, lookup-append_absent}
pub use Outcomes.{
  Outcome, ok, err, ◌>>=◌, ◌>>◌, guard, Returns, Returns-bind, Returns-if, guard-Returns,
  Returns-weaken,
}
pub use Prim.Native.Nat.{ℕ, zero, suc, ◌+◌, ◌-◌, ◌*◌, ◌/◌, ◌%◌, ◌^◌, ◌≤◌, ◌<◌, min, max}
pub use Prim.Native.String.{String}
pub use mathlib.Core.Path.{◌≡◌, refl, sym, ap, ◌∙◌}
pub use mathlib.Core.Logic.{◌≢◌, ◌↔◌, ◌⊎◌, inl, inr}
pub use mathlib.Core.Bool.{Bool, true, false, not, ◌&&◌, ◌||◌}
pub use mathlib.Core.Option.{Option, none, some}
pub use mathlib.Core.List.{List, [], ◌∷◌, ◌++◌, map, append-nil, append_assoc}
pub use native.Mathlib.Omega.{arith}
