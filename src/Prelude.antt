-- ===== src/Prelude.antt =====
-- What the other modules share: library names passed on, the Boolean tests and list functions over
-- the native numbers, and the units in which the daemon counts time.
mod Tests
mod Lists
mod Dict
mod Partial
mod Sort
mod Members
pub use Tests.*
pub use Lists.*
pub use Partial.*
pub use Members.{List-cases, get_elem?-Perm}
unfoldable pub use Sort.{insert_sorted, sort}
pub use Sort.{sort-Perm, length-sort, length-Perm, In, In-get_or, In-sort}
unfoldable pub use Dict.{dict_get, dict_insert, dict_remove}
pub use Dict.{
  dict_get-insert, dict_get-remove, length-dict_insert_new, length-dict_insert_old,
  length-dict_insert-le, length-dict_remove-le,
}
pub use Prim.Native.Nat.{ℕ, zero, suc, ◌+◌, ◌-◌, ◌*◌, ◌/◌, ◌%◌, ◌^◌, ◌≤◌, ◌<◌, min, max}
pub use mathlib.Core.Path.{◌≡◌, refl, sym, ap, ◌∙◌, subst}
pub use mathlib.Core.Logic.{◌≢◌, ◌↔◌, ◌⊎◌, inl, inr, ite, dite, if_pos, if_neg}
pub use mathlib.Core.Bool.{Bool, true, false, not, ◌&&◌, ◌||◌}
pub use mathlib.Core.Option.{Option, none, some}
pub use mathlib.Core.List.{List, [], ◌∷◌, ◌++◌, map, reverse}
pub use native.Mathlib.Omega.{arith}
unfoldable pub use native.Mathlib.Decide.{dec_lt, dec_le, ℕ_discrete}

-- The modulus of `as u32`, and the greatest `u32`.
abbrev pub u32_mod : ℕ
u32_mod = 2 ^ 32

abbrev pub u32_max : ℕ
u32_max = 4294967295

-- An `Instant` and a `Duration` count nanoseconds; `Duration::as_secs` drops the fraction.
abbrev pub nanos_per_sec : ℕ
nanos_per_sec = 1000000000

abbrev pub as_secs : ℕ → ℕ
as_secs d = d / nanos_per_sec

-- `u32::saturating_add`.
abbrev pub saturating_add32 : ℕ → ℕ → ℕ
saturating_add32 a b = min (a + b) u32_max
