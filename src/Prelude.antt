-- ===== src/Prelude.antt =====
-- The names that the other modules share: the libraries' names passed on, Boolean tests, lists
-- over the native numbers, byte strings with their equality, and results of calls that may raise.
mod Tests
mod Lists
mod Results
pub use Tests.*
pub use Lists.*
unfoldable pub use Results.{bytes_discrete}
pub use Results.{
  Bytes, bytes_eq, bytes_eq_refl, bytes_eq→eq, Error, value_error, key_error, index_error,
  assertion_error, recursion_error, struct_error, runtime_error, ledger_error, deposit_error,
  Result, ok, raise, ◌>>=◌, bind-eq_ok, ok-inj,
}
pub use Prim.Native.Nat.{ℕ, zero, suc, ◌+◌, ◌-◌, ◌*◌, ◌/◌, ◌%◌, ◌^◌, ◌≤◌, ◌<◌}
pub use mathlib.Core.Path.{◌≡◌, refl, sym, ap, ◌∙◌, subst}
pub use mathlib.Core.Logic.{◌≢◌, ◌↔◌, ◌⊎◌, inl, inr}
pub use mathlib.Core.Bool.{Bool, true, false, not, ◌&&◌, ◌||◌}
pub use mathlib.Core.Option.{Option, none, some}
pub use mathlib.Core.List.{List, [], ◌∷◌, ◌++◌, map, reverse}
pub use native.Mathlib.Omega.{arith}
