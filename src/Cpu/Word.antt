-- ===== src/Cpu/Word.antt =====
-- src/cpu.cpp: the decoder of a whole instruction word, and its decoders for the loads and stores.
use aarchvm.Base.{
  ℕ, ◌*◌, ◌/◌, ◌^◌, bit_and, Bool, false, ◌&&◌, ◌||◌, ◌==◌, if◌then◌else◌, List, [], ◌∷◌,
}
use aarchvm.Cpu.{low8, sign_extend, to_int32}
use aarchvm.Cpu.Decode.{
  DecodedKind, DecodedInsn, load_store, load_store_uimm, load_flag, result64_flag, blank, flag_if,
  matches, rd_of, rn_of, decode_b_imm, decode_b_cond, decode_cbz, decode_tbz, decode_mov_wide,
  decode_add_sub_imm, decode_logical_shifted, decode_logical_imm, decode_bitfield,
  decode_add_sub_shifted,
}

-- The unsigned-offset forms: the kind, the log of the access size and the flags.
abbrev pub scaled : DecodedKind → ℕ → ℕ → ℕ → DecodedInsn
scaled k log_size flags insn = record blank {
  kind = k;
  rd = low8 (rd_of insn);
  rn = low8 (rn_of insn);
  imm = bit_and (insn / 2 ^ 10) 0xFFF * 2 ^ log_size;
  aux = 2 ^ log_size;
  flags = flags;
}

unfoldable pub is_ldraa_ldrab_encoding : ℕ → Bool
is_ldraa_ldrab_encoding insn = matches insn 0xFF200400 0xF8200400

-- One of a list of values.
abbrev pub one_of : List ℕ → ℕ → Bool
one_of [] value = false
one_of (x ∷ xs) value = value == x || one_of xs value

unfoldable pub decode_pre_post : ℕ → DecodedInsn
decode_pre_post insn =
    let mode = bit_and insn 0xFFC00C00 in
    let loads =
      one_of
        (0x38400400 ∷ 0x38400C00 ∷ 0x78400400 ∷ 0x78400C00 ∷ 0xB8400400 ∷ 0xB8400C00 ∷ 0xF8400400
          ∷ 0xF8400C00 ∷ [])
        mode in
    let pre =
      one_of
        (0x38400C00 ∷ 0x38000C00 ∷ 0x78400C00 ∷ 0x78000C00 ∷ 0xB8400C00 ∷ 0xB8000C00 ∷ 0xF8400C00
          ∷ 0xF8000C00 ∷ [])
        mode in
    let size =
      if one_of (0x38400400 ∷ 0x38000400 ∷ 0x38400C00 ∷ 0x38000C00 ∷ []) mode
      then 1
      else if one_of (0x78400400 ∷ 0x78000400 ∷ 0x78400C00 ∷ 0x78000C00 ∷ []) mode
      then 2
      else if one_of (0xB8400400 ∷ 0xB8000400 ∷ 0xB8400C00 ∷ 0xB8000C00 ∷ []) mode
      then 4
      else 8 in
    record blank {
      kind = load_store;
      rd = low8 (rd_of insn);
      rn = low8 (rn_of insn);
      simm = to_int32 (sign_extend (bit_and (insn / 2 ^ 12) 0x1FF) 9);
      aux = size;
      aux2 = if pre then 1 else 2;
      flags = flag_if (size == 8 && loads) result64_flag (flag_if loads load_flag 0);
    }

abbrev pub is_pre_post : ℕ → Bool
is_pre_post insn =
    one_of
      (0x38400400 ∷ 0x38000400 ∷ 0x38400C00 ∷ 0x38000C00 ∷ 0x78400400 ∷ 0x78000400 ∷ 0x78400C00
        ∷ 0x78000C00 ∷ 0xB8400400 ∷ 0xB8000400 ∷ 0xB8400C00 ∷ 0xB8000C00 ∷ 0xF8400400 ∷ 0xF8000400
        ∷ 0xF8400C00 ∷ 0xF8000C00 ∷ [])
      (bit_and insn 0xFFC00C00)

unfoldable pub decode_load_store : ℕ → DecodedInsn
decode_load_store insn =
    let mode = bit_and insn 0xFFC00000 in
    if mode == 0xF9400000
    then scaled load_store_uimm 3 160 insn
    else if mode == 0xF9000000
    then scaled load_store_uimm 3 0 insn
    else if mode == 0xB9400000
    then scaled load_store_uimm 2 32 insn
    else if mode == 0xB9000000
    then scaled load_store_uimm 2 0 insn
    else if mode == 0xB9800000
    then scaled load_store 2 224 insn
    else if mode == 0x39C00000
    then scaled load_store 0 96 insn
    else if mode == 0x39800000
    then scaled load_store 0 224 insn
    else if mode == 0x79C00000
    then scaled load_store 1 96 insn
    else if mode == 0x79800000
    then scaled load_store 1 224 insn
    else if mode == 0x39400000
    then scaled load_store_uimm 0 32 insn
    else if mode == 0x39000000
    then scaled load_store_uimm 0 0 insn
    else if mode == 0x79400000
    then scaled load_store_uimm 1 32 insn
    else if mode == 0x79000000
    then scaled load_store_uimm 1 0 insn
    else if is_ldraa_ldrab_encoding insn
    then blank
    else if is_pre_post insn
    then decode_pre_post insn
    else blank

unfoldable pub decode_rest : ℕ → DecodedInsn
decode_rest insn =
    if matches insn 0x1F000000 0x0A000000
    then decode_logical_shifted insn
    else if matches insn 0x1F000000 0x12000000
    then decode_logical_imm insn
    else if matches insn 0x1F800000 0x13000000
    then decode_bitfield insn
    else if matches insn 0x7F200000 0x2B000000
        || (matches insn 0x7F200000 0x6B000000 || matches insn 0x7F200000 0x4B000000)
    then decode_add_sub_shifted insn
    else decode_load_store insn

unfoldable pub decode_insn : ℕ → DecodedInsn
decode_insn insn =
    if matches insn 0x7C000000 0x14000000
    then decode_b_imm insn
    else if matches insn 0xFF000010 0x54000000
    then decode_b_cond insn
    else if matches insn 0x7F000000 0x34000000 || matches insn 0x7F000000 0x35000000
    then decode_cbz insn
    else if matches insn 0x7F000000 0x36000000 || matches insn 0x7F000000 0x37000000
    then decode_tbz insn
    else if matches insn 0x7F800000 0x52800000
        || (matches insn 0x7F800000 0x72800000 || matches insn 0x7F800000 0x12800000)
    then decode_mov_wide insn
    else if matches insn 0x7FC00000 0x11800000 || matches insn 0x7FC00000 0x51800000
    then blank
    else if matches insn 0x7F000000 0x11000000
        || (matches insn 0x7F000000 0x31000000
            || (matches insn 0x7F000000 0x51000000 || matches insn 0x7F000000 0x71000000))
    then decode_add_sub_imm insn
    else decode_rest insn
