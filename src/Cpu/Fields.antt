-- ===== src/Cpu/Fields.antt =====
-- The fields of an instruction word: their bounds, and what their copies in a decoded record keep.
use aarchvm.Base.{
  ℕ, zero, suc, ◌+◌, ◌-◌, ◌*◌, ◌/◌, ◌%◌, ◌^◌, ◌<◌, ◌≤◌, ◌≡◌, refl, ap, ◌∙◌, bit_and, bit_or,
  bit_xor, Bool, true, false, ltb, leb, ◌==◌, if◌then◌else◌, u64_mod, u32_mod, bit_and_bound,
  bit_xor_bound, bit_or_disjoint, pow_pos, bit_or_comm, bit_and_ones, bit_xor_top, arith,
  Bool-cases, inl, inr,
}
use native.Mathlib.Nat.{pow-suc, mod-lt, mod-eq_of_lt, add-mul-mod_self_left, pow-le-pow_right}
use aarchvm.Cpu.{low8, sub64, ones, sign_extend, to_int32, from_int32}
use aarchvm.Cpu.Decode.{
  flag_if, any_of, sf_flag, set_flags_flag, sub_flag, non_zero_flag, link_flag, invert_flag,
  offset26, offset19, offset14,
}

pub low8_small : (a b : ℕ) → b < 256 → low8 (bit_and a b) ≡ bit_and a b
low8_small a b h = omega (arith, bit_and_bound a b)

-- What a sign extension of a few bits leaves: a number or its complement, within half the range.
narrow : (x s : ℕ) → x < s * 2 → s * 2 ≤ u32_mod → from_int32 (to_int32 (sub64 x s)) ≡ sub64 x s
unfolding from_int32
narrow x s p q = ground arith

field_narrow :
    (k v : ℕ)
    → 2 ^ suc k ≤ u32_mod
    → let x = sub64 (bit_xor (bit_and v (2 ^ suc k - 1)) (2 ^ k)) (2 ^ k) in
      from_int32 (to_int32 x) ≡ x
field_narrow k v h =
    let masked = bit_and v (2 ^ suc k - 1) in
    let low : masked < 2 ^ suc k =
      omega (arith, bit_and_bound v (2 ^ suc k - 1), pow_pos (suc k)) in
    let fits = bit_xor_bound (suc k) masked (2 ^ k) low (omega (arith, pow-suc 2 k, pow_pos k)) in
    narrow (bit_xor masked (2 ^ k)) (2 ^ k) (omega (arith, fits, pow-suc 2 k))
      (omega (arith, pow-suc 2 k))

pub offset26_narrow : (insn : ℕ) → from_int32 (to_int32 (offset26 insn)) ≡ offset26 insn
unfolding sign_extend ones
offset26_narrow insn = field_narrow 27 (bit_and insn 0x03FFFFFF * 4) (omega arith)

pub offset19_narrow : (insn : ℕ) → from_int32 (to_int32 (offset19 insn)) ≡ offset19 insn
unfolding sign_extend ones
offset19_narrow insn = field_narrow 20 (bit_and (insn / 2 ^ 5) 0x7FFFF * 4) (omega arith)

pub offset14_narrow : (insn : ℕ) → from_int32 (to_int32 (offset14 insn)) ≡ offset14 insn
unfolding sign_extend ones
offset14_narrow insn = field_narrow 15 (bit_and (insn / 2 ^ 5) 0x3FFF * 4) (omega arith)

-- The number of the bit that a test-and-branch looks at.
pub tested_bit :
    (a b : ℕ)
    → low8 (bit_or (bit_and a 1 * 2 ^ 5) (bit_and b 0x1F))
      ≡ bit_or (bit_and a 1 * 2 ^ 5) (bit_and b 0x1F)
tested_bit a b = omega (
  arith,
  bit_or_disjoint 5 (bit_and a 1) (bit_and b 0x1F) (omega (arith, bit_and_bound b 0x1F)),
  bit_and_bound a 1,
  bit_and_bound b 0x1F,
)

pub flag_link : (b : Bool) → any_of (flag_if b link_flag 0) link_flag ≡ b
flag_link true = refl
flag_link false = refl

pub flag_sf : (b : Bool) → any_of (flag_if b sf_flag 0) sf_flag ≡ b
flag_sf true = refl
flag_sf false = refl

pub flag_non_zero : (b : Bool) → any_of (flag_if b non_zero_flag 0) non_zero_flag ≡ b
flag_non_zero true = refl
flag_non_zero false = refl

abbrev pub branch_flags : Bool → Bool → ℕ
branch_flags non_zero sf = flag_if non_zero non_zero_flag (flag_if sf sf_flag 0)

pub branch_flags_sf : (a b : Bool) → any_of (branch_flags a b) sf_flag ≡ b
branch_flags_sf true true = refl
branch_flags_sf true false = refl
branch_flags_sf false true = refl
branch_flags_sf false false = refl

pub branch_flags_non_zero : (a b : Bool) → any_of (branch_flags a b) non_zero_flag ≡ a
branch_flags_non_zero true true = refl
branch_flags_non_zero true false = refl
branch_flags_non_zero false true = refl
branch_flags_non_zero false false = refl

abbrev pub sum_flags : Bool → Bool → Bool → ℕ
sum_flags set_flags is_sub sf =
    flag_if set_flags set_flags_flag (flag_if is_sub sub_flag (flag_if sf sf_flag 0))

pub sum_flags_all :
    (a b c : Bool)
    → (any_of (sum_flags a b c) set_flags_flag ≡ a)
      × (any_of (sum_flags a b c) sub_flag ≡ b)
      × (any_of (sum_flags a b c) sf_flag ≡ c)
sum_flags_all true true true = (refl, refl, refl)
sum_flags_all true true false = (refl, refl, refl)
sum_flags_all true false true = (refl, refl, refl)
sum_flags_all true false false = (refl, refl, refl)
sum_flags_all false true true = (refl, refl, refl)
sum_flags_all false true false = (refl, refl, refl)
sum_flags_all false false true = (refl, refl, refl)
sum_flags_all false false false = (refl, refl, refl)

pub invert_flags_all :
    (a b : Bool)
    → (any_of (flag_if a invert_flag (flag_if b sf_flag 0)) invert_flag ≡ a)
      × (any_of (flag_if a invert_flag (flag_if b sf_flag 0)) sf_flag ≡ b)
invert_flags_all true true = (refl, refl)
invert_flags_all true false = (refl, refl)
invert_flags_all false true = (refl, refl)
invert_flags_all false false = (refl, refl)

-- The two six-bit fields that a decoded record packs into one number.
abbrev pub packed : ℕ → ℕ → ℕ
packed a b = bit_or (bit_and a 0x3F) (bit_and b 0x3F * 2 ^ 6)

packed_sum : (a b : ℕ) → packed a b ≡ bit_and b 0x3F * 2 ^ 6 + bit_and a 0x3F
packed_sum a b =
    bit_or_comm (bit_and a 0x3F) (bit_and b 0x3F * 2 ^ 6)
    ∙ bit_or_disjoint 6 (bit_and b 0x3F) (bit_and a 0x3F) (omega (arith, bit_and_bound a 0x3F))

pub packed_low : (a b : ℕ) → bit_and (packed a b) 0x3F ≡ bit_and a 0x3F
packed_low a b = omega (arith, bit_and_ones 6 (packed a b), packed_sum a b, bit_and_bound a 0x3F)

pub packed_high : (a b : ℕ) → bit_and (packed a b / 2 ^ 6) 0x3F ≡ bit_and b 0x3F
packed_high a b = omega (
  arith,
  bit_and_ones 6 (packed a b / 2 ^ 6),
  packed_sum a b,
  bit_and_bound a 0x3F,
  bit_and_bound b 0x3F,
)

sign_wraps :
    (low half full : ℕ)
    → full ≡ half * 2
    → low < full
    → full ≤ 2 ^ 63
    → sub64 ((low + half) % full) half ≡ (if ltb low half then low else low + (u64_mod - full))
sign_wraps low half full e fits small = elim (Bool-cases (ltb low half)) [
  | inl less ↦
      let kept : (low + half) % full ≡ low + half = mod-eq_of_lt (ground (arith, less)) in
      rw (kept, less) (ground (arith, less))
  | inr more ↦
      let above : low + half ≡ low - half + full * 1 = ground (arith, more) in
      let over : (low + half) % full ≡ low - half =
        ap (λ t. t % full) above
        ∙ add-mul-mod_self_left (low - half) full 1
        ∙ mod-eq_of_lt (omega arith) in
      rw (over, more) (ground (arith, more))
]

-- A sign extension: the lowest bits as a signed number, at 64 bits.
pub sign_extend_lem :
    (value bits : ℕ)
    → 0 < bits
    → bits < 64
    → sign_extend value bits ≡ (
        let low = value % 2 ^ bits in
        if ltb low (2 ^ (bits - 1)) then low else low + (u64_mod - 2 ^ bits))
unfolding sign_extend ones
sign_extend_lem value zero p q = absurd (omega arith)
sign_extend_lem value (suc k) p q =
    let low = value % 2 ^ suc k in
    let fits : low < 2 ^ suc k = mod-lt value (pow_pos (suc k)) in
    let small : 2 ^ suc k ≤ 2 ^ 63 =
      pow-le-pow_right {n = 2} (omega arith) {i = suc k} {j = 63} (omega arith) in
    let short : leb 64 (suc k) ≡ false = ground arith in
    let more : (suc k == 0) ≡ false = ground arith in
    let less : suc k - 1 ≡ k = omega arith in
    rw (more, short, bit_and_ones (suc k) value, less, bit_xor_top k low fits)
      (sign_wraps low (2 ^ k) (2 ^ suc k) (pow-suc 2 k) fits small)
