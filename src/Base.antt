-- ===== src/Base.antt =====
-- The names that the other modules share: the libraries', passed on, and those of the children.
mod Tests
mod Lists
mod Keys
mod Maps
mod Sets
mod Strings
pub use Tests.*
pub use Lists.*
unfoldable pub use Lists.{get_elem?, remove_at}
pub use Keys.{Key, nat_key, string_key}
unfoldable pub use Keys.{string_discrete}
unfoldable pub use Maps.{lookup, insert, remove, retain, retain_keys}
pub use Maps.{
  Map, Distinct, filtered, lookup-insert, lookup-remove, insert-Distinct, remove-Distinct,
  retain-Distinct, lookup-retain, lookup-retain_keys, length-insert, length-remove,
  length-remove_lt, length-retain, maps,
}
unfoldable pub use Sets.{contains, add, discard, keep}
pub use Sets.{
  NoRepeat, keys, keep-none, contains-keys, contains-add, contains-discard, contains-append,
  contains-keep, keep-NoRepeat,
}
unfoldable pub use Strings.{replace, is_whitespace, trim_end}
pub use Strings.{is_empty_str, non_empty}
pub use Prim.Native.Nat.{ℕ, zero, suc, ◌+◌, ◌-◌, ◌*◌, ◌/◌, ◌%◌, ◌^◌, ◌≤◌, ◌<◌, min, max}
pub use Prim.Native.String.{String}
pub use mathlib.Core.Path.{◌≡◌, refl, sym, ap, ◌∙◌, subst}
pub use mathlib.Core.Logic.{◌≢◌, ◌↔◌, ◌⊎◌, inl, inr, ite, if_pos, if_neg}
pub use mathlib.Core.Bool.{Bool, true, false, not, ◌&&◌, ◌||◌}
pub use mathlib.Core.Option.{Option, none, some}
pub use mathlib.Core.List.{List, [], ◌∷◌, ◌++◌, map, reverse}
pub use native.Mathlib.Omega.{arith}
unfoldable pub use native.Mathlib.Decide.{dec_lt, dec_le, ℕ_discrete}
