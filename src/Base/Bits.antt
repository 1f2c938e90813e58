-- ===== src/Base/Bits.antt =====
-- What the bitwise operations do to a single bit, at every width.
use Prim.Native.Nat.{
  ℕ, zero, suc, ◌+◌, ◌*◌, ◌/◌, ◌%◌, ◌^◌, ◌≤◌, ◌<◌, min, max, bit_and, bit_or, digits, bitwise,
  bit_or-bitwise, bit_and-bitwise,
}
use mathlib.Core.Path.{◌≡◌, refl, sym, ap, ◌∙◌}
use mathlib.Core.Bool.{false, ◌||◌, ◌&&◌}
use native.Mathlib.Omega.{arith}
use native.Mathlib.Nat.{
  pow-suc, div-add-mod, mul_assoc, mod-lt, mod-eq_of_lt, add-mul-mod_self_left,
}
use aarchvm.Base.Tests.{◌==◌}
use aarchvm.Base.Words.{bit}

module _ (z : ℕ → ℕ) (f : ℕ → ℕ → ℕ) where
  -- The fuel of `digits` does not matter once it covers the first number.
  digits_enough : (m n a b : ℕ) → a ≤ m → a ≤ n → digits z f m a b ≡ digits z f n a b
  digits_enough zero zero a b p q = refl
  digits_enough zero (suc n) zero b p q = refl
  digits_enough zero (suc n) (suc a) b p q = elim p [ ]
  digits_enough (suc m) zero zero b p q = refl
  digits_enough (suc m) zero (suc a) b p q = elim q [ ]
  digits_enough (suc m) (suc n) zero b p q = refl
  digits_enough (suc m) (suc n) (suc a) b p q =
      ap (λ t. t * 2 + f (suc a % 2) (b % 2))
        (digits_enough m n (suc a / 2) (b / 2) (omega arith) (omega arith))

  pub bitwise_peel :
      (a b : ℕ)
      → bitwise z f (suc a) b ≡ bitwise z f (suc a / 2) (b / 2) * 2 + f (suc a % 2) (b % 2)
  bitwise_peel a b =
      ap (λ t. t * 2 + f (suc a % 2) (b % 2))
        (digits_enough a (suc a / 2) (suc a / 2) (b / 2) (omega arith) (omega arith))

pub bit_or_halve : (a b : ℕ) → bit_or a b ≡ bit_or (a / 2) (b / 2) * 2 + max (a % 2) (b % 2)
bit_or_halve zero b = omega (arith, bit_or-bitwise 0 b, bit_or-bitwise 0 (b / 2))
bit_or_halve (suc a) b =
    bit_or-bitwise (suc a) b
    ∙ bitwise_peel (λ y. y) max a b
    ∙ ap (λ t. t * 2 + max (suc a % 2) (b % 2)) (sym (bit_or-bitwise (suc a / 2) (b / 2)))

pub bit_or_half : (a b : ℕ) → bit_or a b / 2 ≡ bit_or (a / 2) (b / 2)
bit_or_half a b = omega (arith, bit_or_halve a b)

-- Bit `i` of `a | b`.
pub bit-bit_or : (i a b : ℕ) → bit (bit_or a b) i ≡ (bit a i || bit b i)
unfolding bit
bit-bit_or zero a b = ground (arith, bit_or_halve a b)
bit-bit_or (suc i) a b = rw bit_or_half (bit-bit_or i (a / 2) (b / 2))

pub bit_of_zero : (i : ℕ) → bit 0 i ≡ false
unfolding bit
bit_of_zero zero = refl
bit_of_zero (suc i) = bit_of_zero i

pub pow_half : (i : ℕ) → 2 ^ suc i / 2 ≡ 2 ^ i
pow_half i = omega (arith, pow-suc 2 i)

-- Bit `j` of `1 << i`.
pub bit-pow : (i j : ℕ) → bit (2 ^ i) j ≡ (i == j)
unfolding bit
bit-pow zero zero = refl
bit-pow zero (suc j) = bit_of_zero j ∙ (ground arith)
bit-pow (suc i) zero = ground (arith, pow-suc 2 i)
bit-pow (suc i) (suc j) = rw pow_half (bit-pow i j ∙ (ground arith))

pub bit_or_zero_fuel : (n a : ℕ) → a ≤ n → bit_or a 0 ≡ a
bit_or_zero_fuel n zero h = refl
bit_or_zero_fuel zero (suc a) h = elim h [ ]
bit_or_zero_fuel (suc n) (suc a) h =
    omega (arith, bit_or_halve (suc a) 0, bit_or_zero_fuel n (suc a / 2) (omega arith))

-- `|` is `+` where the low number fits below the other's lowest bit.
pub bit_or_disjoint : (k q r : ℕ) → r < 2 ^ k → bit_or (q * 2 ^ k) r ≡ q * 2 ^ k + r
bit_or_disjoint zero q r h =
    let none_low : r ≡ 0 = omega arith in
    rw none_low (omega (arith, bit_or_zero_fuel (q * 1) (q * 1) (omega arith)))
bit_or_disjoint (suc k) q r h =
    let double : q * 2 ^ suc k ≡ 2 * (q * 2 ^ k) =
      omega (arith, ap (λ (t : ℕ). q * t) (pow-suc 2 k)) in
    let rest = bit_or_disjoint k q (r / 2) (omega (arith, pow-suc 2 k)) in
    ground (arith, bit_or_halve (q * 2 ^ suc k) r, double, rest)

pub bit_and_halve : (a b : ℕ) → bit_and a b ≡ bit_and (a / 2) (b / 2) * 2 + min (a % 2) (b % 2)
bit_and_halve zero b = omega (arith, bit_and-bitwise 0 b, bit_and-bitwise 0 (b / 2))
bit_and_halve (suc a) b =
    bit_and-bitwise (suc a) b
    ∙ ap (λ t. t * 2 + min (suc a % 2) (b % 2))
        (digits_enough (λ y. 0) min a (suc a / 2) (suc a / 2) (b / 2) (omega arith) (omega arith))
    ∙ ap (λ t. t * 2 + min (suc a % 2) (b % 2)) (sym (bit_and-bitwise (suc a / 2) (b / 2)))

pub bit_and_zero : (v : ℕ) → bit_and 0 v ≡ 0
bit_and_zero v = bit_and-bitwise 0 v

-- Bit `i` of `a & b`.
pub bit-bit_and : (i a b : ℕ) → bit (bit_and a b) i ≡ (bit a i && bit b i)
unfolding bit
bit-bit_and zero a b = ground (arith, bit_and_halve a b)
bit-bit_and (suc i) a b =
    let half : bit_and a b / 2 ≡ bit_and (a / 2) (b / 2) = omega (arith, bit_and_halve a b) in
    rw half (bit-bit_and i (a / 2) (b / 2))

pub pow_pos : (k : ℕ) → 0 < 2 ^ k
pow_pos zero = omega arith
pow_pos (suc k) = omega (arith, pow-suc 2 k, pow_pos k)

pub mod_halves : (k b : ℕ) → b % 2 ^ suc k ≡ b / 2 % 2 ^ k * 2 + b % 2
mod_halves k b =
    let p = 2 ^ k in
    let low = b / 2 % p * 2 + b % 2 in
    let double : 2 ^ suc k ≡ 2 * p = omega (arith, pow-suc 2 k) in
    let split : b ≡ low + 2 * p * (b / 2 / p) =
      omega (arith, div-add-mod (b / 2) p, mul_assoc 2 p (b / 2 / p)) in
    let fits : low < 2 * p = omega (arith, mod-lt (b / 2) (pow_pos k)) in
    rw double (
      ap (λ x. x % (2 * p)) split
      ∙ add-mul-mod_self_left low (2 * p) (b / 2 / p)
      ∙ mod-eq_of_lt fits)

-- `&` with a number below `2^k` reads the low `k` bits of the other.
pub bit_and_low : (k a b : ℕ) → a < 2 ^ k → bit_and a b ≡ bit_and a (b % 2 ^ k)
bit_and_low zero a b h =
    let none_left : a ≡ 0 = omega arith in
    rw none_left (omega (arith, bit_and-bitwise 0 b, bit_and-bitwise 0 (b % 1)))
bit_and_low (suc k) a b h =
    let rest = bit_and_low k (a / 2) (b / 2) (omega (arith, pow-suc 2 k)) in
    ground (arith, bit_and_halve a b, bit_and_halve a (b % 2 ^ suc k), rest, mod_halves k b)
