-- ===== src/Cpu/Same.antt =====
-- src/cpu.cpp: an instruction runs the same, decoded or not.
use aarchvm.Base.{
  ℕ, ◌+◌, ◌-◌, ◌*◌, ◌/◌, ◌%◌, ◌^◌, ◌<◌, ◌≡◌, refl, sym, ap, ◌∙◌, bit_and, Bool, true, false, ◌||◌,
  ltb, ◌==◌, if◌then◌else◌, u64_mod, u32_mod, bit_and_bound, bit_and_assoc, bit_and_shift, ==_iff,
  arith,
}
use aarchvm.Cpu.{Cpu, low8, low32, sub64, shl64, sp_or_reg}
use aarchvm.Cpu.Decode.{
  matches, decode_b_imm, decode_b_cond, decode_cbz, decode_tbz, decode_mov_wide, decode_add_sub_imm,
  rd_of, rn_of, is_sf, any_of,
}
use aarchvm.Cpu.Fields.{
  low8_small, offset26_narrow, offset19_narrow, offset14_narrow, tested_bit, flag_link, flag_sf,
  flag_non_zero, branch_flags_sf, branch_flags_non_zero, sum_flags_all,
}
use aarchvm.Cpu.Exec.{
  exec_b_imm, exec_b_cond, exec_cbz, exec_tbz, exec_mov_wide, exec_decoded_add_sub_imm, add_sub,
}
use aarchvm.Cpu.Slow.{
  branch_imm, branch_cond, compare_branch, test_branch, add_values, sub_values, movz, movk, movn,
  hw_of, add_imm, sub_imm, immediate12,
}

pub b_imm_same : (m : Cpu) (insn : ℕ) → exec_b_imm m (decode_b_imm insn) ≡ branch_imm m insn
unfolding decode_b_imm
b_imm_same m insn = rw (flag_link (any_of insn 0x80000000), offset26_narrow insn) refl

pub b_cond_same : (m : Cpu) (insn : ℕ) → exec_b_cond m (decode_b_cond insn) ≡ branch_cond m insn
unfolding decode_b_cond
b_cond_same m insn = rw (low8_small insn 0xF (omega arith), offset19_narrow insn) refl

pub cbz_same : (m : Cpu) (insn : ℕ) → exec_cbz m (decode_cbz insn) ≡ compare_branch m insn
unfolding decode_cbz
cbz_same m insn =
    rw
      (
        branch_flags_sf (any_of insn 0x01000000) (is_sf insn),
        branch_flags_non_zero (any_of insn 0x01000000) (is_sf insn),
        low8_small insn 0x1F (omega arith),
        offset19_narrow insn,
      )
      refl

pub tbz_same : (m : Cpu) (insn : ℕ) → exec_tbz m (decode_tbz insn) ≡ test_branch m insn
unfolding decode_tbz
tbz_same m insn =
    rw
      (
        flag_non_zero (any_of insn 0x01000000),
        low8_small insn 0x1F (omega arith),
        tested_bit (insn / 2 ^ 31) (insn / 2 ^ 19),
        offset14_narrow insn,
      )
      refl

-- The two ways to add and to subtract at 32 bits.
pub add_same :
    (m : Cpu) (sf set_flags : Bool) (rd lhs rhs : ℕ)
    → add_sub m sf set_flags false rd lhs rhs ≡ add_values m sf set_flags rd lhs rhs
unfolding add_values
add_same m true set_flags rd lhs rhs = refl
add_same m false set_flags rd lhs rhs =
    let same_sum : low32 ((lhs + rhs) % u64_mod) ≡ (low32 lhs + low32 rhs) % u32_mod =
      omega arith in
    rw same_sum refl

pub sub_same :
    (m : Cpu) (sf set_flags : Bool) (rd lhs rhs : ℕ)
    → (sf ≡ false → rhs < u64_mod)
    → add_sub m sf set_flags true rd lhs rhs ≡ sub_values m sf set_flags rd lhs rhs
unfolding sub_values
sub_same m true set_flags rd lhs rhs h = refl
sub_same m false set_flags rd lhs rhs h =
    let fits : rhs < u64_mod = h refl in
    let same_difference : low32 (sub64 lhs rhs) ≡ (low32 lhs + (u32_mod - low32 rhs)) % u32_mod =
      omega arith in
    rw same_difference refl

-- A field that a matched pattern fixes.
pub matched_field :
    (insn mask value k : ℕ)
    → matches insn mask value ≡ true
    → bit_and (insn / 2 ^ k) (mask / 2 ^ k) ≡ value / 2 ^ k
matched_field insn mask value k h =
    sym (bit_and_shift k insn mask) ∙ ap (λ t. t / 2 ^ k) ((==_iff _ _).0 h)

-- The part of a matched pattern under another mask.
pub matched_part :
    (insn mask value part : ℕ)
    → matches insn mask value ≡ true
    → bit_and insn (bit_and mask part) ≡ bit_and value part
matched_part insn mask value part h =
    sym (bit_and_assoc insn mask part) ∙ ap (λ t. bit_and t part) ((==_iff _ _).0 h)

-- The shift of a move, in the record and in the word.
hw_twice : (insn : ℕ) → low8 (hw_of insn * 16) ≡ hw_of insn * 16
hw_twice insn = omega (arith, bit_and_bound (insn / 2 ^ 21) 3)

pub movz_same :
    (m : Cpu) (insn : ℕ)
    → matches insn 0x7F800000 0x52800000 ≡ true
    → exec_mov_wide m (decode_mov_wide insn) ≡ movz m insn
unfolding exec_mov_wide decode_mov_wide movz
movz_same m insn h =
    rw
      (
        matched_field insn 0x7F800000 0x52800000 29 h,
        flag_sf (is_sf insn),
        hw_twice insn,
        low8_small insn 0x1F (omega arith),
      )
      refl

far_hw : (insn : ℕ) → ltb 16 (hw_of insn * 16) ≡ ltb 1 (hw_of insn)
far_hw insn = ground arith

pub movk_same :
    (m : Cpu) (insn : ℕ)
    → matches insn 0x7F800000 0x72800000 ≡ true
    → exec_mov_wide m (decode_mov_wide insn) ≡ movk m insn
unfolding exec_mov_wide decode_mov_wide movk
movk_same m insn h =
    rw
      (
        matched_field insn 0x7F800000 0x72800000 29 h,
        flag_sf (is_sf insn),
        hw_twice insn,
        far_hw insn,
        low8_small insn 0x1F (omega arith),
      )
      refl

pub movn_same :
    (m : Cpu) (insn : ℕ)
    → matches insn 0x7F800000 0x12800000 ≡ true
    → exec_mov_wide m (decode_mov_wide insn) ≡ movn m insn
unfolding exec_mov_wide decode_mov_wide movn
movn_same m insn h =
    rw
      (
        matched_field insn 0x7F800000 0x12800000 29 h,
        flag_sf (is_sf insn),
        hw_twice insn,
        far_hw insn,
        low8_small insn 0x1F (omega arith),
      )
      refl

shift12 :
    (insn : ℕ)
    → low8 (bit_and (insn / 2 ^ 22) 1 * 12) ≡ (if bit_and (insn / 2 ^ 22) 1 == 0 then 0 else 12)
shift12 insn = ground (arith, bit_and_bound (insn / 2 ^ 22) 1)

-- The record of an immediate addition or subtraction, run.
imm_run :
    (m : Cpu) (insn : ℕ) (is_sub : Bool)
    → any_of insn 0x40000000 ≡ is_sub
    → exec_decoded_add_sub_imm m (decode_add_sub_imm insn)
      ≡ add_sub m
          (is_sf insn)
          (any_of insn 0x20000000)
          is_sub
          (rd_of insn)
          (sp_or_reg m (rn_of insn))
          (immediate12 insn)
unfolding exec_decoded_add_sub_imm decode_add_sub_imm
imm_run m insn is_sub h =
    let flags = sum_flags_all (any_of insn 0x20000000) is_sub (is_sf insn) in
    rw
      (
        h,
        flags.0,
        flags.1,
        flags.2,
        shift12 insn,
        low8_small insn 0x1F (omega arith),
        low8_small (insn / 2 ^ 5) 0x1F (omega arith),
      )
      refl

add_bit :
    (insn : ℕ)
    → (matches insn 0x7F000000 0x11000000 || matches insn 0x7F000000 0x31000000) ≡ true
    → any_of insn 0x40000000 ≡ false
add_bit insn h = ground (
  arith,
  matched_part insn 0x7F000000 0x11000000 0x40000000,
  matched_part insn 0x7F000000 0x31000000 0x40000000,
)

sub_bit :
    (insn : ℕ)
    → (matches insn 0x7F000000 0x51000000 || matches insn 0x7F000000 0x71000000) ≡ true
    → any_of insn 0x40000000 ≡ true
sub_bit insn h = ground (
  arith,
  matched_part insn 0x7F000000 0x51000000 0x40000000,
  matched_part insn 0x7F000000 0x71000000 0x40000000,
)

pub add_imm_same :
    (m : Cpu) (insn : ℕ)
    → (matches insn 0x7F000000 0x11000000 || matches insn 0x7F000000 0x31000000) ≡ true
    → exec_decoded_add_sub_imm m (decode_add_sub_imm insn) ≡ add_imm m insn
add_imm_same m insn h =
    imm_run m insn false (add_bit insn h)
    ∙ add_same m (is_sf insn) (any_of insn 0x20000000) (rd_of insn) (sp_or_reg m (rn_of insn))
        (immediate12 insn)

immediate12_bound : (insn : ℕ) → immediate12 insn < u64_mod
unfolding shl64
immediate12_bound insn = omega arith

pub sub_imm_same :
    (m : Cpu) (insn : ℕ)
    → (matches insn 0x7F000000 0x51000000 || matches insn 0x7F000000 0x71000000) ≡ true
    → exec_decoded_add_sub_imm m (decode_add_sub_imm insn) ≡ sub_imm m insn
sub_imm_same m insn h =
    imm_run m insn true (sub_bit insn h)
    ∙ sub_same m (is_sf insn) (any_of insn 0x20000000) (rd_of insn) (sp_or_reg m (rn_of insn))
        (immediate12 insn) (λ _. immediate12_bound insn)
