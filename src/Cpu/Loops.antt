-- ===== src/Cpu/Loops.antt =====
-- src/cpu.cpp: what the loop of `replicate` gives.
use aarchvm.Base.{
  ℕ, zero, suc, ◌+◌, ◌-◌, ◌*◌, ◌%◌, ◌^◌, ◌<◌, ◌≤◌, ◌≡◌, sym, ap, ◌∙◌, true, false, ◌&&◌, ◌||◌, ltb,
  leb, ◌==◌, u32_mod, bit, bit_or, bit_and, bit-bit_or, bit_of_zero, bit_and_ones, bit-shifted,
  bit-mod, pow_pos, Bool-cases, inl, inr, arith,
}
use native.Mathlib.Nat.{add-mod_right, mod-eq_of_lt, mod-lt, suc-mul, mul-le-mul_left}
use aarchvm.Cpu.{shl64, ones}
use aarchvm.Cpu.Masks.{replicate, replicate_from}

bit-shl64 : (a p i : ℕ) → bit (shl64 a p) i ≡ (ltb i 64 && (leb p i && bit a (i - p)))
unfolding shl64
bit-shl64 a p i = bit-mod 64 (a * 2 ^ p) i ∙ ap (λ b. ltb i 64 && b) (bit-shifted p a i)

-- The element that the loop repeats.
kept_low : (value e : ℕ) → e ≤ 64 → bit_and value (ones e) ≡ value % 2 ^ e
unfolding ones
kept_low value zero h = omega (arith, bit_and_ones 0 value)
kept_low value (suc e) h = elim (Bool-cases (leb 64 (suc e))) [
  | inl top ↦ let full : suc e ≡ 64 = ground arith in rw (top, full) (bit_and_ones 64 value)
  | inr low ↦
      let some_bits : (suc e == 0) ≡ false = ground arith in
      rw (some_bits, low) (bit_and_ones (suc e) value)
]

-- A number has no bit from its width on.
no_high_bit : (elem e j : ℕ) → elem < 2 ^ e → bit elem j ≡ (ltb j e && bit elem j)
no_high_bit elem e j h =
    let whole : elem % 2 ^ e ≡ elem = mod-eq_of_lt h in
    ap (λ x. bit x j) (sym whole) ∙ bit-mod e elem j

-- A copy at a position and the copies after it are the copies from that position on.
first_copy :
    (elem e m pos i : ℕ)
    → elem < 2 ^ e
    → 0 < e
    → pos + e + m ≤ 64
    → ((ltb i 64 && (leb pos i && bit elem (i - pos)))
        || (leb (pos + e) i && (ltb i (pos + e + m) && bit elem ((i - (pos + e)) % e))))
      ≡ (leb pos i && (ltb i (pos + e + m) && bit elem ((i - pos) % e)))
first_copy elem e m pos i small pe fits =
    let high = no_high_bit elem e (i - pos) small in
    elim (Bool-cases (leb (pos + e) i)) [
      | inl far ↦
          let split : i - pos ≡ i - (pos + e) + e = ground arith in
          let later : (i - pos) % e ≡ (i - (pos + e)) % e =
            ap (λ x. x % e) split ∙ add-mod_right (i - (pos + e)) e in
          rw later (ground (arith, far, high))
      | inr near ↦
          let here : i - pos < e = ground arith in
          let first : (i - pos) % e ≡ i - pos = mod-eq_of_lt here in
          rw (first, near) (ground (arith, near))
    ]

-- The passes that are left put as many copies of the element from the position on.
copies :
    (elem e n fuel pos out i : ℕ)
    → elem < 2 ^ e
    → 0 < e
    → n ≤ fuel
    → pos + n * e ≤ 64
    → bit (replicate_from fuel elem e (pos + n * e) pos out) i
      ≡ (bit out i || (leb pos i && (ltb i (pos + n * e) && bit elem ((i - pos) % e))))
unfolding replicate_from
copies elem e zero zero pos out i small pe le fits = ground arith
copies elem e zero (suc fuel) pos out i small pe le fits = ground arith
copies elem e (suc n) zero pos out i small pe le fits = absurd (omega arith)
copies elem e (suc n) (suc fuel) pos out i small pe le fits =
    let added = bit_or out (shl64 elem pos) in
    let rest =
      copies elem e n fuel (pos + e) added i small pe (omega arith)
        (omega (arith, fits, suc-mul n e)) in
    let ends : pos + suc n * e ≡ pos + e + n * e = omega (arith, suc-mul n e) in
    let near : (pos + e) % u32_mod ≡ pos + e = omega (arith, fits, suc-mul n e) in
    let more : ltb pos (pos + e + n * e) ≡ true = ground arith in
    rw (ends, near, more, rest, bit-bit_or, bit-shl64)
      (ground (arith, first_copy elem e (n * e) pos i small pe (omega (arith, fits, suc-mul n e))))

-- `replicate` of an element size that divides the data size (n copies, 64 bits at most) gives the low
-- bits of the value, one copy after the other, and no bit above the data size.
pub bit-replicate :
    (value esize n i : ℕ)
    → 0 < esize
    → esize ≤ 64
    → n * esize ≤ 64
    → bit (replicate value esize (n * esize)) i ≡ (ltb i (n * esize) && bit value (i % esize))
unfolding replicate
bit-replicate value esize n i pos small fits =
    let kept = kept_low value esize small in
    let elem = value % 2 ^ esize in
    let passes : n ≤ n * esize = omega (arith, mul-le-mul_left n pos) in
    let all =
      copies elem esize n (n * esize) 0 0 i (mod-lt value (pow_pos esize)) pos passes
        (omega (arith, fits)) in
    let below : i % esize < esize = mod-lt i pos in
    let same : n * esize ≡ 0 + n * esize = omega arith in
    rw kept (
      ap (λ d. bit (replicate_from (n * esize) elem esize d 0 0) i) same
      ∙ all
      ∙ ground (arith, bit_of_zero i, bit-mod esize value (i % esize), below))
