-- ===== src/Base/Words.antt =====
-- Machine words as native numbers: the modulus of a width, single bits and the bitwise operations.
use Prim.Native.Nat.{ℕ, zero, suc, ◌/◌, ◌%◌, ◌^◌}
use mathlib.Core.Bool.{Bool}
use aarchvm.Base.Tests.{◌==◌}

abbrev pub u64_mod : ℕ
u64_mod = 2 ^ 64

abbrev pub u32_mod : ℕ
u32_mod = 2 ^ 32

-- `(v >> i) & 1` as a Boolean.
unfoldable pub bit : ℕ → ℕ → Bool
bit v zero = v % 2 == 1
bit v (suc i) = bit (v / 2) i

-- `(v >> lo) & (2^width - 1)`.
abbrev pub field : ℕ → ℕ → ℕ → ℕ
field v lo width = (v / 2 ^ lo) % 2 ^ width
