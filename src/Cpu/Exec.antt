-- ===== src/Cpu/Exec.antt =====
-- src/cpu.cpp: the execution of a decoded instruction. `none` is the answer false, which leaves the
-- processor as it was. The kinds that touch memory are left out: their answer is a parameter.
use aarchvm.Base.{
  ℕ, ◌+◌, ◌-◌, ◌*◌, ◌/◌, ◌%◌, ◌^◌, bit_and, bit_or, bit_xor, Bool, true, false, not, ltb, ◌==◌,
  if◌then◌else◌, bit, u64_mod, u32_mod, Option, none, some,
}
use aarchvm.Cpu.{
  Cpu, low32, sub64, not64, shl64, reg, reg32, set_reg, set_reg32, sp_or_reg, set_sp_or_reg, ones,
  from_int32, condition_holds, set_flags_add, set_flags_sub, set_flags_logic,
}
use aarchvm.Cpu.Masks.{ror, arithmetic_shift, decode_bit_masks, BitMasks}
use aarchvm.Cpu.Decode.{
  DecodedKind, DecodedInsn, fallback, b_imm, b_cond, cbz, tbz, mov_wide, add_sub_imm,
  add_sub_shifted, load_store_uimm, load_store, logical_shifted, logical_imm, bitfield, sf_flag,
  set_flags_flag, sub_flag, non_zero_flag, link_flag, invert_flag, any_of,
}

-- `pc_ = pc_ + offset - 4`.
abbrev pub jump : Cpu → ℕ → Cpu
jump m offset = record m { pc = (m.pc + offset + (u64_mod - 4)) % u64_mod }

abbrev pub sized_reg : Cpu → Bool → ℕ → ℕ
sized_reg m sf idx = if sf then reg m idx else reg32 m idx

abbrev pub set_sized : Cpu → Bool → ℕ → ℕ → Cpu
set_sized m sf idx value = if sf then set_reg m idx value else set_reg32 m idx value

abbrev pub exec_b_imm : Cpu → DecodedInsn → Cpu
exec_b_imm m d =
    let linked = if any_of d.flags link_flag then set_reg m 30 m.pc else m in
    jump linked (from_int32 d.simm)

abbrev pub exec_b_cond : Cpu → DecodedInsn → Cpu
exec_b_cond m d = if condition_holds m d.aux then jump m (from_int32 d.simm) else m

abbrev pub exec_cbz : Cpu → DecodedInsn → Cpu
exec_cbz m d =
    let value = sized_reg m (any_of d.flags sf_flag) d.rd in
    let take = if any_of d.flags non_zero_flag then not (value == 0) else value == 0 in
    if take then jump m (from_int32 d.simm) else m

abbrev pub exec_tbz : Cpu → DecodedInsn → Cpu
exec_tbz m d =
    let bit_set = bit (reg m d.rd) d.aux in
    let take = if any_of d.flags non_zero_flag then bit_set else not bit_set in
    if take then jump m (from_int32 d.simm) else m

unfoldable pub exec_mov_wide : Cpu → DecodedInsn → Option Cpu
exec_mov_wide m d =
    let sf = any_of d.flags sf_flag in
    let value = shl64 d.imm d.aux2 in
    if d.aux == 2
    then some (set_sized m sf d.rd value)
    else if d.aux == 3
    then if sf
      then some (set_reg m d.rd (bit_or (bit_and (reg m d.rd) (not64 (shl64 0xFFFF d.aux2))) value))
      else if ltb 16 d.aux2
      then none
      else some (
          set_reg32 m d.rd (
            bit_or (bit_and (reg32 m d.rd) (u32_mod - 1 - low32 (0xFFFF * 2 ^ d.aux2)))
              (low32 value)))
    else if d.aux == 0
    then if sf
      then some (set_reg m d.rd (not64 value))
      else if ltb 16 d.aux2
      then none
      else some (set_reg32 m d.rd (not64 value))
    else none

-- The sum or the difference, into the register and, where asked, the flags.
abbrev pub add_sub : Cpu → Bool → Bool → Bool → ℕ → ℕ → ℕ → Cpu
add_sub m sf set_flags is_sub rd lhs rhs =
    let full = if is_sub then sub64 lhs rhs else (lhs + rhs) % u64_mod in
    let value = if sf then full else low32 full in
    if set_flags
    then if sf
      then if is_sub
        then set_flags_sub (set_reg m rd value) lhs rhs value false
        else set_flags_add (set_reg m rd value) lhs rhs value false
      else if is_sub
      then set_flags_sub (set_reg32 m rd value) (low32 lhs) (low32 rhs) (low32 value) true
      else set_flags_add (set_reg32 m rd value) (low32 lhs) (low32 rhs) (low32 value) true
    else set_sp_or_reg m rd value (not sf)

unfoldable pub exec_decoded_add_sub_imm : Cpu → DecodedInsn → Cpu
exec_decoded_add_sub_imm m d =
    add_sub m (any_of d.flags sf_flag) (any_of d.flags set_flags_flag) (any_of d.flags sub_flag)
      d.rd (sp_or_reg m d.rn) (shl64 d.imm d.aux)

-- The second operand, shifted by `amount` as `shift_type` says.
abbrev pub shifted_operand : Cpu → Bool → ℕ → ℕ → ℕ → ℕ
shifted_operand m sf rm shift_type amount =
    let sh = bit_and amount (if sf then 63 else 31) in
    let v = sized_reg m sf rm in
    if shift_type == 0
    then if sf then shl64 v sh else low32 (v * 2 ^ sh)
    else if shift_type == 1
    then v / 2 ^ sh
    else arithmetic_shift (if sf then 64 else 32) v sh

unfoldable pub exec_decoded_add_sub_shifted : Cpu → DecodedInsn → Cpu
exec_decoded_add_sub_shifted m d =
    let sf = any_of d.flags sf_flag in
    add_sub m sf (any_of d.flags set_flags_flag) (any_of d.flags sub_flag) d.rd
      (sized_reg m sf d.rn) (shifted_operand m sf d.rm d.aux d.aux2)

-- AND, ORR, EOR and ANDS, as the two bits of `opc` say, into the register and, for the last, the flags.
abbrev pub logical : Cpu → Bool → ℕ → ℕ → ℕ → ℕ → Cpu
logical m sf opc rd lhs rhs =
    let value =
      if opc == 0
      then bit_and lhs rhs
      else if opc == 1
      then bit_or lhs rhs
      else if opc == 2
      then bit_xor lhs rhs
      else bit_and lhs rhs in
    let flagged = set_flags_logic m value (not sf) in
    if opc == 3
    then if rd == 31 then flagged else set_sized flagged sf rd value
    else set_sized m sf rd value

-- The second operand of a logical instruction: shifted or rotated, and inverted where asked.
abbrev pub logical_operand : Cpu → Bool → Bool → ℕ → ℕ → ℕ → ℕ
logical_operand m sf invert rm shift_type imm6 =
    let width_mask = if sf then u64_mod - 1 else u32_mod - 1 in
    let sh = if sf then bit_and imm6 63 else bit_and imm6 31 in
    let rhs_src = sized_reg m sf rm in
    let shifted =
      if shift_type == 0
      then shl64 rhs_src sh
      else if shift_type == 1
      then bit_and rhs_src width_mask / 2 ^ sh
      else if shift_type == 2
      then arithmetic_shift (if sf then 64 else 32) rhs_src sh
      else ror rhs_src sh (if sf then 64 else 32) in
    let kept = bit_and shifted width_mask in
    if invert then bit_and (not64 kept) width_mask else kept

unfoldable pub exec_decoded_logical_shifted : Cpu → DecodedInsn → Cpu
exec_decoded_logical_shifted m d =
    let sf = any_of d.flags sf_flag in
    logical m sf d.aux2 d.rd (sized_reg m sf d.rn)
      (logical_operand m sf (any_of d.flags invert_flag) d.rm d.aux d.imm)

-- The masks of a word's or a record's fields.
abbrev pub sized_masks : Bool → ℕ → ℕ → ℕ → Option BitMasks
sized_masks sf n imms immr = decode_bit_masks n imms immr (if sf then 64 else 32)

-- `if (!decode_bit_masks(...)) return false;`.
unfoldable pub with_masks : Option BitMasks → (BitMasks → Option Cpu) → Option Cpu
with_masks none use_masks = none
with_masks (some masks) use_masks = use_masks masks

unfoldable pub exec_decoded_logical_imm : Cpu → DecodedInsn → Option Cpu
exec_decoded_logical_imm m d =
    let sf = any_of d.flags sf_flag in
    let immr = bit_and d.imm 0x3F in
    let imms = bit_and (d.imm / 2 ^ 6) 0x3F in
    with_masks (sized_masks sf (bit_and d.aux2 1) imms immr)
      (λ masks. some (logical m sf d.aux d.rd (sized_reg m sf d.rn) masks.wmask))

-- SBFM, BFM and UBFM with their masks.
abbrev pub move_bits : Cpu → Bool → ℕ → ℕ → ℕ → ℕ → ℕ → BitMasks → Option Cpu
move_bits m sf opc rd rn imms immr masks =
    let datasize = if sf then 64 else 32 in
    let src = sized_reg m sf rn in
    let dst = sized_reg m sf rd in
    let bot = bit_and (ror src immr datasize) masks.wmask in
    let top = if bit src (bit_and imms (datasize - 1)) then ones datasize else 0 in
    let merged = bit_or (bit_and dst (not64 masks.wmask)) bot in
    if opc == 0
    then some
        (set_sized m sf rd (bit_or (bit_and top (not64 masks.tmask)) (bit_and bot masks.tmask)))
    else if opc == 1
    then some
        (set_sized m sf rd (bit_or (bit_and dst (not64 masks.tmask)) (bit_and merged masks.tmask)))
    else if opc == 2
    then some (set_sized m sf rd (bit_and bot masks.tmask))
    else none

unfoldable pub exec_decoded_bitfield : Cpu → DecodedInsn → Option Cpu
exec_decoded_bitfield m d =
    let sf = any_of d.flags sf_flag in
    let immr = bit_and d.imm 0x3F in
    let imms = bit_and (d.imm / 2 ^ 6) 0x3F in
    with_masks (sized_masks sf (bit_and d.aux2 1) imms immr)
      (λ masks. move_bits m sf d.aux d.rd d.rn imms immr masks)

module _ (exec_decoded_memory : Cpu → DecodedInsn → Option Cpu) where
  abbrev pub exec_kind : DecodedKind → Cpu → DecodedInsn → Option Cpu
  exec_kind fallback m d = none
  exec_kind b_imm m d = some (exec_b_imm m d)
  exec_kind b_cond m d = some (exec_b_cond m d)
  exec_kind cbz m d = some (exec_cbz m d)
  exec_kind tbz m d = some (exec_tbz m d)
  exec_kind mov_wide m d = exec_mov_wide m d
  exec_kind add_sub_imm m d = some (exec_decoded_add_sub_imm m d)
  exec_kind add_sub_shifted m d = some (exec_decoded_add_sub_shifted m d)
  exec_kind load_store_uimm m d = exec_decoded_memory m d
  exec_kind load_store m d = exec_decoded_memory m d
  exec_kind logical_shifted m d = some (exec_decoded_logical_shifted m d)
  exec_kind logical_imm m d = exec_decoded_logical_imm m d
  exec_kind bitfield m d = exec_decoded_bitfield m d

  unfoldable pub exec_decoded : Cpu → DecodedInsn → Option Cpu
  exec_decoded m d = exec_kind d.kind m d
