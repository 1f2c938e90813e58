-- ===== src/Base/Masks.antt =====
-- Masks and shifts of native numbers at every width, and exclusive or.
use Prim.Native.Nat.{
  ℕ, zero, suc, ◌+◌, ◌-◌, ◌*◌, ◌/◌, ◌%◌, ◌^◌, ◌≤◌, ◌<◌, bit_and, bit_or, bit_xor, differ,
  bit_or-bitwise, bit_xor-bitwise,
}
use mathlib.Core.Path.{◌≡◌, refl, sym, ap, ◌∙◌}
use native.Mathlib.Omega.{arith}
use native.Mathlib.Nat.{pow-suc, pow-succ', div-one, div-div-eq-div-mul, mul_assoc}
use aarchvm.Base.Bits.{
  bitwise_peel, bit_and_halve, bit_or_halve, bit_and_zero, bit_or_zero_fuel, pow_half, pow_pos,
  mod_halves,
}

bit_and_bound_fuel : (n a b : ℕ) → a ≤ n → bit_and a b ≤ b
bit_and_bound_fuel n zero b h = omega (arith, bit_and_zero b)
bit_and_bound_fuel zero (suc a) b h = absurd (omega arith)
bit_and_bound_fuel (suc n) (suc a) b h =
    omega (arith, bit_and_halve (suc a) b, bit_and_bound_fuel n (suc a / 2) (b / 2) (omega arith))

-- A mask bounds what it keeps.
pub bit_and_bound : (a b : ℕ) → bit_and a b ≤ b
bit_and_bound a b = bit_and_bound_fuel a a b (omega arith)

differ_of_bits : (a b : ℕ) → a < 2 → b < 2 → differ a b ≤ 1
differ_of_bits zero zero p q = omega arith
differ_of_bits zero (suc b) p q = omega arith
differ_of_bits (suc a) zero p q = omega arith
differ_of_bits (suc zero) (suc zero) p q = omega arith
differ_of_bits (suc (suc a)) (suc b) p q = absurd (omega arith)
differ_of_bits (suc zero) (suc (suc b)) p q = absurd (omega arith)

bit_xor_halve : (a b : ℕ) → bit_xor a b ≡ bit_xor (a / 2) (b / 2) * 2 + differ (a % 2) (b % 2)
bit_xor_halve zero b = omega (arith, bit_xor-bitwise 0 b, bit_xor-bitwise 0 (b / 2))
bit_xor_halve (suc a) b =
    bit_xor-bitwise (suc a) b
    ∙ bitwise_peel (λ y. y) differ a b
    ∙ ap (λ t. t * 2 + differ (suc a % 2) (b % 2)) (sym (bit_xor-bitwise (suc a / 2) (b / 2)))

-- `^` stays within a width.
pub bit_xor_bound : (k a b : ℕ) → a < 2 ^ k → b < 2 ^ k → bit_xor a b < 2 ^ k
bit_xor_bound zero a b p q =
    let left : a ≡ 0 = omega arith in
    let right : b ≡ 0 = omega arith in rw (left, right) (omega (arith, bit_xor-bitwise 0 0))
bit_xor_bound (suc k) a b p q = omega (
  arith,
  bit_xor_halve a b,
  pow-suc 2 k,
  bit_xor_bound k (a / 2) (b / 2) (omega (arith, pow-suc 2 k)) (omega (arith, pow-suc 2 k)),
  differ_of_bits (a % 2) (b % 2) (omega arith) (omega arith),
)

bit_and_assoc_fuel : (n a b c : ℕ) → a ≤ n → bit_and (bit_and a b) c ≡ bit_and a (bit_and b c)
bit_and_assoc_fuel n zero b c h =
    rw (bit_and_zero b, bit_and_zero c, bit_and_zero (bit_and b c)) refl
bit_and_assoc_fuel zero (suc a) b c h = absurd (omega arith)
bit_and_assoc_fuel (suc n) (suc a) b c h =
    let left : bit_and (suc a) b / 2 ≡ bit_and (suc a / 2) (b / 2) =
      omega (arith, bit_and_halve (suc a) b) in
    let right : bit_and b c / 2 ≡ bit_and (b / 2) (c / 2) = omega (arith, bit_and_halve b c) in
    let outer_left = bit_and_halve (bit_and (suc a) b) c in
    let outer_right = bit_and_halve (suc a) (bit_and b c) in
    let halves : bit_and (bit_and (suc a) b / 2) (c / 2) ≡ bit_and (suc a / 2) (bit_and b c / 2) =
      rw (left, right) (bit_and_assoc_fuel n (suc a / 2) (b / 2) (c / 2) (omega arith)) in
    omega (arith, outer_left, outer_right, halves, bit_and_halve (suc a) b, bit_and_halve b c)

pub bit_and_assoc : (a b c : ℕ) → bit_and (bit_and a b) c ≡ bit_and a (bit_and b c)
bit_and_assoc a b c = bit_and_assoc_fuel a a b c (omega arith)

-- `(a & b) >> k`.
pub bit_and_shift : (k a b : ℕ) → bit_and a b / 2 ^ k ≡ bit_and (a / 2 ^ k) (b / 2 ^ k)
bit_and_shift zero a b = rw (div-one a, div-one b, div-one (bit_and a b)) refl
bit_and_shift (suc k) a b =
    let half : bit_and a b / 2 ≡ bit_and (a / 2) (b / 2) = omega (arith, bit_and_halve a b) in
    rw
      (
        pow-succ' 2 k,
        sym (div-div-eq-div-mul a 2 (2 ^ k)),
        sym (div-div-eq-div-mul b 2 (2 ^ k)),
        sym (div-div-eq-div-mul (bit_and a b) 2 (2 ^ k)),
        half,
      )
      (bit_and_shift k (a / 2) (b / 2))

-- The mask of the lowest bits is the remainder.
pub bit_and_ones : (k v : ℕ) → bit_and v (2 ^ k - 1) ≡ v % 2 ^ k
bit_and_ones zero v = omega (arith, bit_and_bound v 0)
bit_and_ones (suc k) v =
    let halved : (2 ^ suc k - 1) / 2 ≡ 2 ^ k - 1 = omega (arith, pow-suc 2 k, pow_pos k) in
    let odd : (2 ^ suc k - 1) % 2 ≡ 1 = omega (arith, pow-suc 2 k, pow_pos k) in
    let rest : bit_and (v / 2) ((2 ^ suc k - 1) / 2) ≡ v / 2 % 2 ^ k =
      rw halved (bit_and_ones k (v / 2)) in
    omega (arith, bit_and_halve v (2 ^ suc k - 1), odd, rest, mod_halves k v)

bit_or_comm_fuel : (n a b : ℕ) → a ≤ n → bit_or a b ≡ bit_or b a
bit_or_comm_fuel n zero b h = omega (arith, bit_or-bitwise 0 b, bit_or_zero_fuel b b (omega arith))
bit_or_comm_fuel zero (suc a) b h = absurd (omega arith)
bit_or_comm_fuel (suc n) (suc a) b h = omega (
  arith,
  bit_or_halve (suc a) b,
  bit_or_halve b (suc a),
  bit_or_comm_fuel n (suc a / 2) (b / 2) (omega arith),
)

pub bit_or_comm : (a b : ℕ) → bit_or a b ≡ bit_or b a
bit_or_comm a b = bit_or_comm_fuel a a b (omega arith)

differ_zero : (a : ℕ) → differ a 0 ≡ a
differ_zero zero = refl
differ_zero (suc a) = refl

-- `^` with the top bit of a width adds it or takes it away.
pub bit_xor_top : (k x : ℕ) → x < 2 ^ suc k → bit_xor x (2 ^ k) ≡ (x + 2 ^ k) % 2 ^ suc k
bit_xor_top zero zero h = refl
bit_xor_top zero (suc zero) h = refl
bit_xor_top zero (suc (suc x)) h = absurd (omega arith)
bit_xor_top (suc k) x h =
    let half : 2 ^ suc k / 2 ≡ 2 ^ k = pow_half k in
    let rest : bit_xor (x / 2) (2 ^ suc k / 2) ≡ (x / 2 + 2 ^ k) % 2 ^ suc k =
      rw half (bit_xor_top k (x / 2) (omega (arith, pow-suc 2 (suc k)))) in
    let even : 2 ^ suc k % 2 ≡ 0 = omega (arith, pow-suc 2 k) in
    let low : differ (x % 2) (2 ^ suc k % 2) ≡ x % 2 = rw even (differ_zero (x % 2)) in
    let moved : (x + 2 ^ suc k) / 2 ≡ x / 2 + 2 ^ k = omega (arith, pow-suc 2 k) in
    let sum : (x + 2 ^ suc k) % 2 ^ suc (suc k)
        ≡ (x / 2 + 2 ^ k) % 2 ^ suc k * 2 + (x + 2 ^ suc k) % 2 =
      mod_halves (suc k) (x + 2 ^ suc k)
      ∙ ap (λ t. t % 2 ^ suc k * 2 + (x + 2 ^ suc k) % 2) moved in
    omega (arith, bit_xor_halve x (2 ^ suc k), pow-suc 2 k, rest, low, sum)

-- A mask of high bits looks at the number shifted.
pub bit_and_high : (k a mask : ℕ) → bit_and a (mask * 2 ^ k) ≡ bit_and (a / 2 ^ k) mask * 2 ^ k
bit_and_high zero a mask =
    let same_mask : mask * 1 ≡ mask = omega arith in rw (same_mask, div-one a) (omega arith)
bit_and_high (suc k) a mask =
    let double : mask * 2 ^ suc k ≡ mask * 2 ^ k * 2 =
      ap (λ t. mask * t) (pow-suc 2 k) ∙ sym (mul_assoc mask (2 ^ k) 2) in
    let half : mask * 2 ^ k * 2 / 2 ≡ mask * 2 ^ k = omega arith in
    let rest : bit_and (a / 2) (mask * 2 ^ k * 2 / 2) ≡ bit_and (a / 2 / 2 ^ k) mask * 2 ^ k =
      rw half (bit_and_high k (a / 2) mask) in
    let shifted : a / 2 / 2 ^ k ≡ a / 2 ^ suc k =
      div-div-eq-div-mul a 2 (2 ^ k) ∙ ap (λ t. a / t) (sym (pow-succ' 2 k)) in
    let kept = bit_and (a / 2 ^ suc k) mask in
    let grown : kept * 2 ^ suc k ≡ kept * 2 ^ k * 2 =
      ap (λ t. kept * t) (pow-suc 2 k) ∙ sym (mul_assoc kept (2 ^ k) 2) in
    let moved : bit_and (a / 2 / 2 ^ k) mask * 2 ^ k ≡ kept * 2 ^ k =
      ap (λ t. bit_and t mask * 2 ^ k) shifted in
    rw double (omega (arith, bit_and_halve a (mask * 2 ^ k * 2), rest, moved, grown))
