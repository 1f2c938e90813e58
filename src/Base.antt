-- ===== src/Base.antt =====
-- The names that the other modules share: the libraries', passed on, and those of the children.
mod Tests
mod Words
mod Maps
mod Bits
mod Masks
mod Places
mod Extensional
mod Lists
unfoldable pub use Lists.*
pub use Tests.*
unfoldable pub use Words.*
pub use Bits.{
  bit-bit_or, bit-pow, bit_of_zero, bit_or_disjoint, bit-bit_and, bit_and_low, bit_and_halve,
  bit_and_zero, bit_or_halve, pow_pos,
}
pub use Masks.{
  bit_and_bound, bit_xor_bound, bit_and_assoc, bit_and_shift, bit_and_ones, bit_or_comm,
  bit_xor_top, bit_and_high,
}
pub use Places.{bit-shifted, bit-mod}
pub use Extensional.{same_bits, bit_and_again, ones_mask_again}
pub use Maps.*
pub use Prim.Native.Nat.{
  ℕ, zero, suc, ◌+◌, ◌-◌, ◌*◌, ◌/◌, ◌%◌, ◌^◌, ◌≤◌, ◌<◌, min, max, bit_and, bit_or, bit_xor,
}
pub use mathlib.Core.Path.{◌≡◌, refl, sym, ap, ap₂, ◌∙◌}
pub use mathlib.Core.Logic.{◌≢◌, ◌↔◌, ◌⊎◌, inl, inr}
pub use mathlib.Core.Bool.{Bool, true, false, not, ◌&&◌, ◌||◌}
pub use mathlib.Core.Option.{Option, none, some}
pub use mathlib.Core.List.{List, [], ◌∷◌, ◌++◌, map, append_assoc, append-nil}
pub use native.Mathlib.Omega.{arith}
