-- ===== src/Cpu/SameRegisters.antt =====
-- src/cpu.cpp: the instructions on registers run the same, decoded or not.
use aarchvm.Base.{
  ℕ, ◌/◌, ◌^◌, ◌<◌, ◌≡◌, refl, ap, ◌∙◌, bit_and, Bool, false, not, ◌&&◌, ◌||◌, ltb, ◌==◌, u64_mod,
  some, bit_and_assoc, bit_and_high, arith,
}
use native.Mathlib.Nat.{div-le_self}
use aarchvm.Cpu.{Cpu, low8, low32, reg, reg32}
use aarchvm.Cpu.Decode.{
  any_of, is_sf, rd_of, rn_of, rm_of, decode_add_sub_shifted, decode_logical_shifted,
  decode_logical_imm, decode_bitfield,
}
use aarchvm.Cpu.Fields.{
  low8_small, sum_flags_all, flag_sf, invert_flags_all, packed_low, packed_high,
}
use aarchvm.Cpu.Exec.{
  sized_reg, shifted_operand, add_sub, exec_decoded_add_sub_shifted, exec_decoded_logical_shifted,
  exec_decoded_logical_imm, exec_decoded_bitfield,
}
use aarchvm.Cpu.SlowRegisters.{
  logical_register, logical_immediate, bit_field, shift_type_of, imm6_of, n_of,
}

pub shifted_bound : (m : Cpu) (rm t a : ℕ) → shifted_operand m false rm t a < u64_mod
unfolding reg32
shifted_bound m rm t a = ground (arith, div-le_self (low32 (reg m rm)) (2 ^ bit_and a 31))

-- Bit 21, tested in the word or shifted out of it.
inverted : (insn : ℕ) → any_of insn 0x00200000 ≡ not (bit_and (insn / 2 ^ 21) 1 == 0)
inverted insn = ground (arith, bit_and_high 21 insn 1)

-- The bit N of a mask, copied.
n_kept : (insn : ℕ) → bit_and (low8 (n_of insn)) 1 ≡ n_of insn
n_kept insn =
    ap (λ t. bit_and t 1) (low8_small (insn / 2 ^ 22) 1 (omega arith))
    ∙ bit_and_assoc (insn / 2 ^ 22) 1 1

pub add_sub_shifted_run :
    (m : Cpu) (insn : ℕ) (is_sub : Bool)
    → any_of insn 0x40000000 ≡ is_sub
    → ltb 2 (shift_type_of insn) ≡ false
    → exec_decoded_add_sub_shifted m (decode_add_sub_shifted insn)
      ≡ add_sub m
          (is_sf insn)
          (any_of insn 0x20000000)
          is_sub
          (rd_of insn)
          (sized_reg m (is_sf insn) (rn_of insn))
          (shifted_operand m (is_sf insn) (rm_of insn) (shift_type_of insn) (imm6_of insn))
unfolding exec_decoded_add_sub_shifted decode_add_sub_shifted
add_sub_shifted_run m insn is_sub h short =
    let flags = sum_flags_all (any_of insn 0x20000000) is_sub (is_sf insn) in
    rw
      (
        short,
        h,
        flags.0,
        flags.1,
        flags.2,
        low8_small insn 0x1F (omega arith),
        low8_small (insn / 2 ^ 5) 0x1F (omega arith),
        low8_small (insn / 2 ^ 16) 0x1F (omega arith),
        low8_small (insn / 2 ^ 22) 3 (omega arith),
        low8_small (insn / 2 ^ 10) 0x3F (omega arith),
      )
      refl

pub logical_shifted_run :
    (m : Cpu) (insn : ℕ)
    → (not (is_sf insn) && any_of (imm6_of insn) 0x20) ≡ false
    → some (exec_decoded_logical_shifted m (decode_logical_shifted insn)) ≡ logical_register m insn
unfolding exec_decoded_logical_shifted decode_logical_shifted logical_register
logical_shifted_run m insn h =
    let flags = invert_flags_all (any_of insn 0x00200000) (is_sf insn) in
    rw
      (
        h,
        flags.0,
        flags.1,
        inverted insn,
        low8_small insn 0x1F (omega arith),
        low8_small (insn / 2 ^ 5) 0x1F (omega arith),
        low8_small (insn / 2 ^ 16) 0x1F (omega arith),
        low8_small (insn / 2 ^ 22) 3 (omega arith),
        low8_small (insn / 2 ^ 29) 3 (omega arith),
      )
      refl

pub logical_imm_run :
    (m : Cpu) (insn : ℕ)
    → (not (is_sf insn) && not (n_of insn == 0)) ≡ false
    → exec_decoded_logical_imm m (decode_logical_imm insn) ≡ logical_immediate m insn
unfolding exec_decoded_logical_imm decode_logical_imm logical_immediate
logical_imm_run m insn h =
    rw
      (
        h,
        flag_sf (is_sf insn),
        n_kept insn,
        packed_low (insn / 2 ^ 16) (insn / 2 ^ 10),
        packed_high (insn / 2 ^ 16) (insn / 2 ^ 10),
        low8_small insn 0x1F (omega arith),
        low8_small (insn / 2 ^ 5) 0x1F (omega arith),
        low8_small (insn / 2 ^ 29) 3 (omega arith),
      )
      refl

pub bitfield_run :
    (m : Cpu) (insn : ℕ)
    → ((is_sf insn && not (n_of insn == 1)) || (not (is_sf insn) && not (n_of insn == 0))) ≡ false
    → exec_decoded_bitfield m (decode_bitfield insn) ≡ bit_field m insn
unfolding exec_decoded_bitfield decode_bitfield bit_field
bitfield_run m insn h =
    rw
      (
        h,
        flag_sf (is_sf insn),
        n_kept insn,
        packed_low (insn / 2 ^ 16) (insn / 2 ^ 10),
        packed_high (insn / 2 ^ 16) (insn / 2 ^ 10),
        low8_small insn 0x1F (omega arith),
        low8_small (insn / 2 ^ 5) 0x1F (omega arith),
        low8_small (insn / 2 ^ 29) 3 (omega arith),
      )
      refl
