-- ===== src/Cpu/Slow.antt =====
-- src/cpu.cpp: the same instructions executed from the word itself: exec_branch, and the blocks of
-- exec_data_processing for them in their order. The blocks of other instructions are left out: the model
-- takes it that none of them matches a word of these.
use aarchvm.Base.{
  ℕ, ◌+◌, ◌-◌, ◌*◌, ◌/◌, ◌%◌, ◌^◌, bit_and, bit_or, Bool, true, false, not, ◌||◌, ltb, ◌==◌,
  if◌then◌else◌, bit, u64_mod, u32_mod, Option, none, some,
}
use aarchvm.Cpu.{
  Cpu, low32, sub64, not64, shl64, reg, reg32, set_reg, set_reg32, sp_or_reg, set_sp_or_reg,
  condition_holds, set_flags_add, set_flags_sub,
}
use aarchvm.Cpu.Decode.{matches, any_of, is_sf, rd_of, rn_of, offset26, offset19, offset14}
use aarchvm.Cpu.Exec.{jump, sized_reg, set_sized}

abbrev pub branch_imm : Cpu → ℕ → Cpu
branch_imm m insn =
    let linked = if any_of insn 0x80000000 then set_reg m 30 m.pc else m in
    jump linked (offset26 insn)

abbrev pub branch_cond : Cpu → ℕ → Cpu
branch_cond m insn = if condition_holds m (bit_and insn 0xF) then jump m (offset19 insn) else m

abbrev pub compare_branch : Cpu → ℕ → Cpu
compare_branch m insn =
    let val = sized_reg m (is_sf insn) (rd_of insn) in
    let take = if any_of insn 0x01000000 then not (val == 0) else val == 0 in
    if take then jump m (offset19 insn) else m

abbrev pub test_branch : Cpu → ℕ → Cpu
test_branch m insn =
    let bitpos = bit_or (bit_and (insn / 2 ^ 31) 1 * 2 ^ 5) (bit_and (insn / 2 ^ 19) 0x1F) in
    let bit_set = bit (reg m (rd_of insn)) bitpos in
    let take = if any_of insn 0x01000000 then bit_set else not bit_set in
    if take then jump m (offset14 insn) else m

unfoldable pub exec_branch : Cpu → ℕ → Option Cpu
exec_branch m insn =
    if matches insn 0x7C000000 0x14000000
    then some (branch_imm m insn)
    else if matches insn 0xFF000010 0x54000000
    then some (branch_cond m insn)
    else if matches insn 0x7F000000 0x34000000 || matches insn 0x7F000000 0x35000000
    then some (compare_branch m insn)
    else if matches insn 0x7F000000 0x36000000 || matches insn 0x7F000000 0x37000000
    then some (test_branch m insn)
    else none

abbrev pub imm16_of : ℕ → ℕ
imm16_of insn = bit_and (insn / 2 ^ 5) 0xFFFF

abbrev pub hw_of : ℕ → ℕ
hw_of insn = bit_and (insn / 2 ^ 21) 3

unfoldable pub movz : Cpu → ℕ → Option Cpu
movz m insn = some (set_sized m (is_sf insn) (rd_of insn) (shl64 (imm16_of insn) (hw_of insn * 16)))

unfoldable pub movk : Cpu → ℕ → Option Cpu
movk m insn =
    let shift = hw_of insn * 16 in
    let rd = rd_of insn in
    if is_sf insn
    then some (
        set_reg m rd
          (bit_or (bit_and (reg m rd) (not64 (shl64 0xFFFF shift))) (shl64 (imm16_of insn) shift)))
    else if ltb 1 (hw_of insn)
    then none
    else some (
        set_reg32 m rd (
          bit_or (bit_and (reg32 m rd) (u32_mod - 1 - low32 (0xFFFF * 2 ^ shift)))
            (low32 (shl64 (imm16_of insn) shift))))

unfoldable pub movn : Cpu → ℕ → Option Cpu
movn m insn =
    let value = not64 (shl64 (imm16_of insn) (hw_of insn * 16)) in
    if is_sf insn
    then some (set_reg m (rd_of insn) value)
    else if ltb 1 (hw_of insn)
    then none
    else some (set_reg32 m (rd_of insn) value)

-- The common end of the ADD blocks.
unfoldable pub add_values : Cpu → Bool → Bool → ℕ → ℕ → ℕ → Cpu
add_values m sf set_flags rd lhs rhs =
    let value = if sf then (lhs + rhs) % u64_mod else (low32 lhs + low32 rhs) % u32_mod in
    let stored = set_sized m sf rd value in
    if set_flags
    then if sf
      then set_flags_add stored lhs rhs value false
      else set_flags_add stored (low32 lhs) (low32 rhs) (low32 value) true
    else set_sp_or_reg m rd value (not sf)

-- The common end of the SUB blocks.
unfoldable pub sub_values : Cpu → Bool → Bool → ℕ → ℕ → ℕ → Cpu
sub_values m sf set_flags rd lhs rhs =
    let value = if sf then sub64 lhs rhs else (low32 lhs + (u32_mod - low32 rhs)) % u32_mod in
    let stored = set_sized m sf rd value in
    if set_flags
    then if sf
      then set_flags_sub stored lhs rhs value false
      else set_flags_sub stored (low32 lhs) (low32 rhs) (low32 value) true
    else set_sp_or_reg m rd value (not sf)

abbrev pub immediate12 : ℕ → ℕ
immediate12 insn =
    shl64 (bit_and (insn / 2 ^ 10) 0xFFF) (if bit_and (insn / 2 ^ 22) 1 == 0 then 0 else 12)

abbrev pub add_imm : Cpu → ℕ → Cpu
add_imm m insn =
    add_values m (is_sf insn) (any_of insn 0x20000000) (rd_of insn) (sp_or_reg m (rn_of insn))
      (immediate12 insn)

abbrev pub sub_imm : Cpu → ℕ → Cpu
sub_imm m insn =
    sub_values m (is_sf insn) (any_of insn 0x20000000) (rd_of insn) (sp_or_reg m (rn_of insn))
      (immediate12 insn)
