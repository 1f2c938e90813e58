-- ===== src/Cpu/Multiply.antt =====
-- src/cpu.cpp: the high half of a product.
use aarchvm.Base.{
  ℕ, ◌+◌, ◌-◌, ◌*◌, ◌/◌, ◌%◌, ◌^◌, ◌<◌, ◌≤◌, ◌≡◌, ap₂, ◌∙◌, bit, if◌then◌else◌, u64_mod, u32_mod,
  arith,
}
use aarchvm.Cpu.{low32, sub64}
use native.Mathlib.Nat.{mul_assoc, mul_right_comm, add-mul, mul-add, mul-le-mul}

unfoldable pub umulh64 : ℕ → ℕ → ℕ
umulh64 lhs rhs =
    let lhs_lo = low32 lhs in
    let lhs_hi = lhs / u32_mod in
    let rhs_lo = low32 rhs in
    let rhs_hi = rhs / u32_mod in
    let p00 = lhs_lo * rhs_lo % u64_mod in
    let p01 = lhs_lo * rhs_hi % u64_mod in
    let p10 = lhs_hi * rhs_lo % u64_mod in
    let p11 = lhs_hi * rhs_hi % u64_mod in
    let middle = (p00 / u32_mod + low32 p01 + low32 p10) % u64_mod in
    (p11 + p01 / u32_mod + p10 / u32_mod + middle / u32_mod) % u64_mod

unfoldable pub smulh64 : ℕ → ℕ → ℕ
smulh64 lhs rhs =
    let high = umulh64 lhs rhs in
    let without_rhs = if bit lhs 63 then sub64 high rhs else high in
    if bit rhs 63 then sub64 without_rhs lhs else without_rhs

product_split :
    (A a B b : ℕ)
    → (A * u32_mod + a) * (B * u32_mod + b)
      ≡ A * B * u32_mod * u32_mod + A * b * u32_mod + a * B * u32_mod + a * b
product_split A a B b = omega (
  arith,
  add-mul (A * u32_mod) a (B * u32_mod + b),
  mul-add (A * u32_mod) (B * u32_mod) b,
  mul-add a (B * u32_mod) b,
  mul_assoc a B u32_mod,
  mul_right_comm A u32_mod b,
  mul_assoc (A * u32_mod) B u32_mod,
  mul_right_comm A u32_mod B,
)

small_product : (a b : ℕ) → a < u32_mod → b < u32_mod → a * b ≤ (u32_mod - 1) * (u32_mod - 1)
small_product a b p q = mul-le-mul {n₂ = u32_mod - 1} {m₂ = u32_mod - 1} (omega arith) (omega arith)

-- The four partial products, none of which overflows, give the high half.
umulh64_of_products :
    (lhs rhs p00 p01 p10 p11 : ℕ)
    → lhs * rhs ≡ p11 * u32_mod * u32_mod + p10 * u32_mod + p01 * u32_mod + p00
    → p00 ≤ (u32_mod - 1) * (u32_mod - 1)
    → p01 ≤ (u32_mod - 1) * (u32_mod - 1)
    → p10 ≤ (u32_mod - 1) * (u32_mod - 1)
    → p11 ≤ (u32_mod - 1) * (u32_mod - 1)
    → (p11 % u64_mod
          + (p01 % u64_mod) / u32_mod
          + (p10 % u64_mod) / u32_mod
          + ((p00 % u64_mod) / u32_mod + low32 (p01 % u64_mod) + low32 (p10 % u64_mod))
            % u64_mod
            / u32_mod)
        % u64_mod
      ≡ lhs * rhs / u64_mod
umulh64_of_products lhs rhs p00 p01 p10 p11 e a b c d = omega arith

-- The high half of the product of two 64-bit numbers, from products of their halves.
pub umulh64_lem :
    (lhs rhs : ℕ) → lhs < u64_mod → rhs < u64_mod → umulh64 lhs rhs ≡ lhs * rhs / u64_mod
unfolding umulh64
umulh64_lem lhs rhs p q =
    let A = lhs / u32_mod in
    let a = low32 lhs in
    let B = rhs / u32_mod in
    let b = low32 rhs in
    let split : lhs * rhs ≡ (A * u32_mod + a) * (B * u32_mod + b) =
      ap₂ (λ (x y : ℕ). x * y) (omega arith) (omega arith) in
    umulh64_of_products lhs rhs (a * b) (a * B) (A * b) (A * B)
      (split ∙ product_split A a B b ∙ (omega arith))
      (small_product a b (omega arith) (omega arith))
      (small_product a B (omega arith) (omega arith))
      (small_product A b (omega arith) (omega arith))
      (small_product A B (omega arith) (omega arith))

-- A signed 64-bit number as a 128-bit one.
abbrev pub widened : ℕ → ℕ
widened a = if bit a 63 then a + (2 ^ 128 - 2 ^ 64) else a

-- The high half of the product of two signed 64-bit numbers, both widened to 128 bits.
pub smulh64_lem :
    (lhs rhs : ℕ)
    → lhs < u64_mod
    → rhs < u64_mod
    → smulh64 lhs rhs ≡ widened lhs * widened rhs % 2 ^ 128 / 2 ^ 64
unfolding smulh64
smulh64_lem lhs rhs p q =
    let k = 2 ^ 128 - 2 ^ 64 in
    let fits : lhs * rhs ≤ (u64_mod - 1) * (u64_mod - 1) =
      mul-le-mul {n₂ = u64_mod - 1} {m₂ = u64_mod - 1} (omega arith) (omega arith) in
    rw (umulh64_lem lhs rhs p q)
      (ground (arith, fits, add-mul lhs k rhs, add-mul lhs k (rhs + k), mul-add lhs rhs k))
