-- ===== src/Cpu/Decode.antt =====
-- src/cpu.cpp: an instruction word decoded once. A signed immediate is the pattern of its 32 bits.
use aarchvm.Base.{
  ℕ, ◌*◌, ◌/◌, ◌^◌, bit_and, bit_or, Bool, not, ◌&&◌, ◌||◌, ltb, ◌==◌, if◌then◌else◌,
}
use aarchvm.Cpu.{low8, sign_extend, to_int32}

pub data DecodedKind : Type 0 where
  fallback b_imm b_cond cbz tbz mov_wide add_sub_imm add_sub_shifted : DecodedKind
  load_store_uimm load_store logical_shifted logical_imm bitfield : DecodedKind

pub record DecodedInsn : Type 0 where
  pub kind : DecodedKind
  pub simm : ℕ
  pub imm : ℕ
  pub rd : ℕ
  pub rn : ℕ
  pub rm : ℕ
  pub aux : ℕ
  pub aux2 : ℕ
  pub flags : ℕ

abbrev pub sf_flag : ℕ
sf_flag = 1

abbrev pub set_flags_flag : ℕ
set_flags_flag = 2

abbrev pub sub_flag : ℕ
sub_flag = 4

abbrev pub non_zero_flag : ℕ
non_zero_flag = 8

abbrev pub link_flag : ℕ
link_flag = 16

abbrev pub load_flag : ℕ
load_flag = 32

abbrev pub signed_flag : ℕ
signed_flag = 64

abbrev pub result64_flag : ℕ
result64_flag = 128

abbrev pub invert_flag : ℕ
invert_flag = 256

abbrev pub blank : DecodedInsn
blank = record {
  kind = fallback;
  simm = 0;
  imm = 0;
  rd = 31;
  rn = 31;
  rm = 31;
  aux = 0;
  aux2 = 0;
  flags = 0;
}

-- `flags |= flag` under a condition.
abbrev pub flag_if : Bool → ℕ → ℕ → ℕ
flag_if on flag flags = if on then bit_or flags flag else flags

-- `(insn & mask) == value`.
abbrev pub matches : ℕ → ℕ → ℕ → Bool
matches insn mask value = bit_and insn mask == value

-- `(insn & mask) != 0`.
abbrev pub any_of : ℕ → ℕ → Bool
any_of insn mask = not (bit_and insn mask == 0)

-- `insn >> 31 != 0`.
abbrev pub is_sf : ℕ → Bool
is_sf insn = not (insn / 2 ^ 31 == 0)

abbrev pub rd_of : ℕ → ℕ
rd_of insn = bit_and insn 0x1F

abbrev pub rn_of : ℕ → ℕ
rn_of insn = bit_and (insn / 2 ^ 5) 0x1F

abbrev pub rm_of : ℕ → ℕ
rm_of insn = bit_and (insn / 2 ^ 16) 0x1F

abbrev pub offset26 : ℕ → ℕ
offset26 insn = sign_extend (bit_and insn 0x03FFFFFF * 4) 28

abbrev pub offset19 : ℕ → ℕ
offset19 insn = sign_extend (bit_and (insn / 2 ^ 5) 0x7FFFF * 4) 21

abbrev pub offset14 : ℕ → ℕ
offset14 insn = sign_extend (bit_and (insn / 2 ^ 5) 0x3FFF * 4) 16

unfoldable pub decode_b_imm : ℕ → DecodedInsn
decode_b_imm insn = record blank {
  kind = b_imm;
  simm = to_int32 (offset26 insn);
  flags = flag_if (any_of insn 0x80000000) link_flag 0;
}

unfoldable pub decode_b_cond : ℕ → DecodedInsn
decode_b_cond insn = record blank {
  kind = b_cond;
  aux = low8 (bit_and insn 0xF);
  simm = to_int32 (offset19 insn);
}

unfoldable pub decode_cbz : ℕ → DecodedInsn
decode_cbz insn = record blank {
  kind = cbz;
  rd = low8 (rd_of insn);
  simm = to_int32 (offset19 insn);
  flags = flag_if (any_of insn 0x01000000) non_zero_flag (flag_if (is_sf insn) sf_flag 0);
}

unfoldable pub decode_tbz : ℕ → DecodedInsn
decode_tbz insn = record blank {
  kind = tbz;
  rd = low8 (rd_of insn);
  aux = low8 (bit_or (bit_and (insn / 2 ^ 31) 1 * 2 ^ 5) (bit_and (insn / 2 ^ 19) 0x1F));
  simm = to_int32 (offset14 insn);
  flags = flag_if (any_of insn 0x01000000) non_zero_flag 0;
}

unfoldable pub decode_mov_wide : ℕ → DecodedInsn
decode_mov_wide insn = record blank {
  kind = mov_wide;
  rd = low8 (rd_of insn);
  aux = low8 (bit_and (insn / 2 ^ 29) 3);
  aux2 = low8 (bit_and (insn / 2 ^ 21) 3 * 16);
  imm = bit_and (insn / 2 ^ 5) 0xFFFF;
  flags = flag_if (is_sf insn) sf_flag 0;
}

unfoldable pub decode_add_sub_imm : ℕ → DecodedInsn
decode_add_sub_imm insn = record blank {
  kind = add_sub_imm;
  rd = low8 (rd_of insn);
  rn = low8 (rn_of insn);
  imm = bit_and (insn / 2 ^ 10) 0xFFF;
  aux = low8 (bit_and (insn / 2 ^ 22) 1 * 12);
  flags =
      flag_if (any_of insn 0x20000000) set_flags_flag
        (flag_if (any_of insn 0x40000000) sub_flag (flag_if (is_sf insn) sf_flag 0));
}

unfoldable pub decode_logical_shifted : ℕ → DecodedInsn
decode_logical_shifted insn =
    let imm6 = bit_and (insn / 2 ^ 10) 0x3F in
    if not (is_sf insn) && any_of imm6 0x20 then blank else record blank {
      kind = logical_shifted;
      rd = low8 (rd_of insn);
      rn = low8 (rn_of insn);
      rm = low8 (rm_of insn);
      aux = low8 (bit_and (insn / 2 ^ 22) 3);
      aux2 = low8 (bit_and (insn / 2 ^ 29) 3);
      imm = imm6;
      flags = flag_if (any_of insn 0x00200000) invert_flag (flag_if (is_sf insn) sf_flag 0);
    }

-- Logical immediates and bit fields have the same layout.
abbrev pub masked_insn : DecodedKind → ℕ → DecodedInsn
masked_insn k insn = record blank {
  kind = k;
  rd = low8 (rd_of insn);
  rn = low8 (rn_of insn);
  aux = low8 (bit_and (insn / 2 ^ 29) 3);
  aux2 = low8 (bit_and (insn / 2 ^ 22) 1);
  imm = bit_or (bit_and (insn / 2 ^ 16) 0x3F) (bit_and (insn / 2 ^ 10) 0x3F * 2 ^ 6);
  flags = flag_if (is_sf insn) sf_flag 0;
}

unfoldable pub decode_logical_imm : ℕ → DecodedInsn
decode_logical_imm insn =
    if not (is_sf insn) && not (bit_and (insn / 2 ^ 22) 1 == 0)
    then blank
    else masked_insn logical_imm insn

unfoldable pub decode_bitfield : ℕ → DecodedInsn
decode_bitfield insn =
    let n = bit_and (insn / 2 ^ 22) 1 in
    if (is_sf insn && not (n == 1)) || (not (is_sf insn) && not (n == 0))
    then blank
    else masked_insn bitfield insn

unfoldable pub decode_add_sub_shifted : ℕ → DecodedInsn
decode_add_sub_shifted insn =
    let shift_type = bit_and (insn / 2 ^ 22) 3 in
    if ltb 2 shift_type then blank else record blank {
      kind = add_sub_shifted;
      rd = low8 (rd_of insn);
      rn = low8 (rn_of insn);
      rm = low8 (rm_of insn);
      aux = low8 shift_type;
      aux2 = low8 (bit_and (insn / 2 ^ 10) 0x3F);
      flags =
          flag_if (any_of insn 0x20000000) set_flags_flag
            (flag_if (any_of insn 0x40000000) sub_flag (flag_if (is_sf insn) sf_flag 0));
    }
