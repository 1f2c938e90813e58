-- ===== src/Base/Places.antt =====
-- The bits of a number moved up, and of a remainder.
use Prim.Native.Nat.{ℕ, zero, suc, ◌-◌, ◌*◌, ◌/◌, ◌%◌, ◌^◌}
use mathlib.Core.Path.{◌≡◌, ap, ◌∙◌}
use mathlib.Core.Bool.{◌&&◌}
use native.Mathlib.Omega.{arith}
use native.Mathlib.Nat.{pow-suc}
use aarchvm.Base.Tests.{ltb, leb}
use aarchvm.Base.Words.{bit}
use aarchvm.Base.Bits.{mod_halves, bit_of_zero}

-- A bit of a number moved up.
pub bit-shifted : (p a i : ℕ) → bit (a * 2 ^ p) i ≡ (leb p i && bit a (i - p))
unfolding bit
bit-shifted zero a i =
    let same : a * 2 ^ 0 ≡ a = omega arith in ap (λ t. bit t i) same ∙ (ground arith)
bit-shifted (suc p) a zero =
    let double : a * 2 ^ suc p ≡ 2 * (a * 2 ^ p) =
      omega (arith, ap (λ (t : ℕ). a * t) (pow-suc 2 p)) in
    rw double (ground arith)
bit-shifted (suc p) a (suc i) =
    let half : a * 2 ^ suc p / 2 ≡ a * 2 ^ p = omega (arith, ap (λ (t : ℕ). a * t) (pow-suc 2 p)) in
    rw half (bit-shifted p a i ∙ (ground arith))

-- The bits of a remainder by a power of two: those below the power, no others.
pub bit-mod : (k v i : ℕ) → bit (v % 2 ^ k) i ≡ (ltb i k && bit v i)
unfolding bit
bit-mod zero v i =
    let nothing : v % 2 ^ 0 ≡ 0 = omega arith in
    ap (λ t. bit t i) nothing ∙ bit_of_zero i ∙ (ground arith)
bit-mod (suc k) v zero = ground (arith, mod_halves k v)
bit-mod (suc k) v (suc i) =
    let half : v % 2 ^ suc k / 2 ≡ v / 2 % 2 ^ k = omega (arith, mod_halves k v) in
    rw half (bit-mod k (v / 2) i ∙ (ground arith))
