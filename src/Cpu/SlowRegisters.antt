-- ===== src/Cpu/SlowRegisters.antt =====
-- src/cpu.cpp: the blocks of exec_data_processing for additions and subtractions of shifted registers,
-- logical instructions and bit fields, in their order, and the blocks together. The blocks of other
-- instructions that stand between are left out.
use aarchvm.Base.{
  ℕ, ◌/◌, ◌^◌, bit_and, not, ◌&&◌, ◌||◌, ltb, ◌==◌, if◌then◌else◌, Option, none, some,
}
use aarchvm.Cpu.{Cpu}
use aarchvm.Cpu.Decode.{matches, any_of, is_sf, rd_of, rn_of, rm_of}
use aarchvm.Cpu.Exec.{
  sized_reg, shifted_operand, logical, logical_operand, sized_masks, with_masks, move_bits,
}
use aarchvm.Cpu.Slow.{add_values, sub_values, movz, movk, movn, add_imm, sub_imm, exec_branch}

abbrev pub or_else : Option Cpu → Option Cpu → Option Cpu
or_else none other = other
or_else (some m) other = some m

abbrev pub shift_type_of : ℕ → ℕ
shift_type_of insn = bit_and (insn / 2 ^ 22) 3

abbrev pub imm6_of : ℕ → ℕ
imm6_of insn = bit_and (insn / 2 ^ 10) 0x3F

abbrev pub opc_of : ℕ → ℕ
opc_of insn = bit_and (insn / 2 ^ 29) 3

abbrev pub n_of : ℕ → ℕ
n_of insn = bit_and (insn / 2 ^ 22) 1

abbrev pub immr_of : ℕ → ℕ
immr_of insn = bit_and (insn / 2 ^ 16) 0x3F

unfoldable pub add_shifted : Cpu → ℕ → Option Cpu
add_shifted m insn =
    let sf = is_sf insn in
    if ltb 2 (shift_type_of insn)
    then none
    else some (
        add_values m sf (any_of insn 0x20000000) (rd_of insn) (sized_reg m sf (rn_of insn))
          (shifted_operand m sf (rm_of insn) (shift_type_of insn) (imm6_of insn)))

unfoldable pub sub_shifted : Cpu → ℕ → Option Cpu
sub_shifted m insn =
    let sf = is_sf insn in
    if ltb 2 (shift_type_of insn)
    then none
    else some (
        sub_values m sf (any_of insn 0x20000000) (rd_of insn) (sized_reg m sf (rn_of insn))
          (shifted_operand m sf (rm_of insn) (shift_type_of insn) (imm6_of insn)))

unfoldable pub logical_register : Cpu → ℕ → Option Cpu
logical_register m insn =
    let sf = is_sf insn in
    let n = not (bit_and (insn / 2 ^ 21) 1 == 0) in
    if not sf && any_of (imm6_of insn) 0x20
    then none
    else some (
        logical m sf (opc_of insn) (rd_of insn) (sized_reg m sf (rn_of insn))
          (logical_operand m sf n (rm_of insn) (shift_type_of insn) (imm6_of insn)))

unfoldable pub logical_immediate : Cpu → ℕ → Option Cpu
logical_immediate m insn =
    let sf = is_sf insn in
    if not sf && not (n_of insn == 0)
    then none
    else with_masks (sized_masks sf (n_of insn) (imm6_of insn) (immr_of insn)) (λ masks.
      some (logical m sf (opc_of insn) (rd_of insn) (sized_reg m sf (rn_of insn)) masks.wmask))

unfoldable pub bit_field : Cpu → ℕ → Option Cpu
bit_field m insn =
    let sf = is_sf insn in
    if (sf && not (n_of insn == 1)) || (not sf && not (n_of insn == 0))
    then none
    else with_masks (sized_masks sf (n_of insn) (imm6_of insn) (immr_of insn)) (λ masks.
      move_bits m sf (opc_of insn) (rd_of insn) (rn_of insn) (imm6_of insn) (immr_of insn) masks)

unfoldable pub exec_registers : Cpu → ℕ → Option Cpu
exec_registers m insn =
    if matches insn 0x7F200000 0x0B000000 || matches insn 0x7F200000 0x2B000000
    then add_shifted m insn
    else if matches insn 0x7F200000 0x4B000000 || matches insn 0x7F200000 0x6B000000
    then sub_shifted m insn
    else if matches insn 0x1F000000 0x0A000000
    then logical_register m insn
    else if matches insn 0x1F000000 0x12000000
    then logical_immediate m insn
    else if matches insn 0x1F800000 0x13000000
    then bit_field m insn
    else none

-- The blocks together. The exception of the tagged forms is left out: `none` stands for it.
unfoldable pub exec_data_processing : Cpu → ℕ → Option Cpu
exec_data_processing m insn =
    if matches insn 0x7F800000 0x52800000
    then movz m insn
    else if matches insn 0x7F800000 0x72800000
    then movk m insn
    else if matches insn 0x7F800000 0x12800000
    then movn m insn
    else if matches insn 0x7FC00000 0x11800000 || matches insn 0x7FC00000 0x51800000
    then none
    else if matches insn 0x7F000000 0x11000000 || matches insn 0x7F000000 0x31000000
    then some (add_imm m insn)
    else if matches insn 0x7F000000 0x51000000 || matches insn 0x7F000000 0x71000000
    then some (sub_imm m insn)
    else exec_registers m insn

-- What a step does with a word that is not decoded: the branches first. The system instructions, which
-- it tries next, are left out.
unfoldable pub exec_slow : Cpu → ℕ → Option Cpu
exec_slow m insn = or_else (exec_branch m insn) (exec_data_processing m insn)
