-- ===== src/Base/Extensional.antt =====
-- Numbers with the same bits are equal, and the idempotence of masks that follows.
use Prim.Native.Nat.{ℕ, zero, suc, ◌+◌, ◌/◌, ◌%◌, ◌^◌, ◌≤◌, ◌<◌, bit_and, bit_or}
use mathlib.Core.Path.{◌≡◌, refl}
use mathlib.Core.Bool.{Bool, true, false, ◌&&◌, ◌||◌}
use native.Mathlib.Omega.{arith}
use aarchvm.Base.Words.{bit}
use aarchvm.Base.Bits.{bit-bit_and, bit-bit_or}

below_pow : (n a : ℕ) → a ≤ n → a < 2 ^ n
below_pow zero a h = omega (arith, h)
below_pow (suc n) zero h = omega (arith, below_pow n 0 (omega arith))
below_pow (suc n) (suc a) h = omega (arith, below_pow n a (omega (arith, h)))

same_low_bit : (a b : ℕ) → bit a 0 ≡ bit b 0 → a % 2 ≡ b % 2
unfolding bit
same_low_bit a b h = ground (arith, h)

same_bits_fuel : (n a b : ℕ) → a < 2 ^ n → b < 2 ^ n → ((i : ℕ) → bit a i ≡ bit b i) → a ≡ b
unfolding bit
same_bits_fuel zero a b ha hb h = omega (arith, ha, hb)
same_bits_fuel (suc n) a b ha hb h = omega (
  arith,
  same_low_bit a b (h 0),
  same_bits_fuel n (a / 2) (b / 2) (omega (arith, ha)) (omega (arith, hb)) (λ i. h (suc i)),
)

pub same_bits : (a b : ℕ) → ((i : ℕ) → bit a i ≡ bit b i) → a ≡ b
same_bits a b h =
    same_bits_fuel (a + b) a b (below_pow (a + b) a (omega arith))
      (below_pow (a + b) b (omega arith)) h

-- A mask applied twice.
and_again : (b c : Bool) → ((b && c) && c) ≡ (b && c)
and_again true true = refl
and_again true false = refl
and_again false c = refl

pub bit_and_again : (v mask : ℕ) → bit_and (bit_and v mask) mask ≡ bit_and v mask
bit_and_again v mask =
    same_bits (bit_and (bit_and v mask) mask) (bit_and v mask)
      (λ i. simp (bit-bit_and, and_again) refl)

-- Bits kept at one, the others masked.
ones_again : (v w r : Bool) → (((((v || r) && (w || r)) || r) && (w || r))) ≡ ((v || r) && (w || r))
ones_again true true true = refl
ones_again true false true = refl
ones_again true true false = refl
ones_again true false false = refl
ones_again false true true = refl
ones_again false false true = refl
ones_again false w false = refl

pub ones_mask_again :
    (v w r : ℕ)
    → bit_and (bit_or (bit_and (bit_or v r) (bit_or w r)) r) (bit_or w r)
      ≡ bit_and (bit_or v r) (bit_or w r)
ones_mask_again v w r =
    same_bits (bit_and (bit_or (bit_and (bit_or v r) (bit_or w r)) r) (bit_or w r))
      (bit_and (bit_or v r) (bit_or w r)) (λ i. simp (bit-bit_and, bit-bit_or, ones_again) refl)
