-- ===== src/Cpu/Masks.antt =====
-- src/cpu.cpp: rotations, shifts, and the masks of logical immediates and bit fields.
use aarchvm.Base.{
  ℕ, zero, suc, ◌+◌, ◌-◌, ◌*◌, ◌/◌, ◌%◌, ◌^◌, bit_and, bit_or, ltb, ◌==◌, if◌then◌else◌, bit,
  u32_mod, Option, none, some,
}
use aarchvm.Cpu.{ones, shl64, low32}

unfoldable pub ror : ℕ → ℕ → ℕ → ℕ
ror value shift width =
    let places = shift % width in
    let mask = ones width in
    let kept = bit_and value mask in
    if width == 0
    then 0
    else if places == 0
    then kept
    else bit_and (bit_or (kept / 2 ^ places) (shl64 kept (width - places))) mask

-- `>>` of a signed number; `width` is 64 or 32.
abbrev pub arithmetic_shift : ℕ → ℕ → ℕ → ℕ
arithmetic_shift width value places =
    if bit value (width - 1)
    then value / 2 ^ places + (2 ^ width - 2 ^ (width - places))
    else value / 2 ^ places

-- The loop of `replicate`, its position in 32 bits; one pass for each bit position is enough.
unfoldable pub replicate_from : ℕ → ℕ → ℕ → ℕ → ℕ → ℕ → ℕ
replicate_from zero elem esize datasize pos out = out
replicate_from (suc fuel) elem esize datasize pos out =
    let rest =
      replicate_from fuel elem esize datasize ((pos + esize) % u32_mod)
        (bit_or out (shl64 elem pos)) in
    if ltb pos datasize then rest else out

unfoldable pub replicate : ℕ → ℕ → ℕ → ℕ
replicate value esize datasize =
    replicate_from datasize (bit_and value (ones esize)) esize datasize 0 0

-- The highest set bit among the lowest `count`.
unfoldable pub highest_bit : ℕ → ℕ → Option ℕ
highest_bit value zero = none
highest_bit value (suc count) =
    let rest = highest_bit value count in if bit value count then some count else rest

pub record BitMasks : Type 0 where
  pub wmask : ℕ
  pub tmask : ℕ

abbrev pub masks_of_length : ℕ → ℕ → ℕ → ℕ → BitMasks
masks_of_length len imms immr datasize =
    let levels = 2 ^ len - 1 in
    let s = bit_and imms levels in
    let r = bit_and immr levels in
    let esize = 2 ^ len in
    let d = bit_and (low32 (s + (u32_mod - r))) levels in
    record {
      wmask = replicate (ror (ones (s + 1)) r esize) esize datasize;
      tmask = replicate (ones (d + 1)) esize datasize;
    }

unfoldable pub decode_bit_masks : ℕ → ℕ → ℕ → ℕ → Option BitMasks
decode_bit_masks n imms immr datasize =
    let not_imms = bit_and (u32_mod - 1 - imms) 0x3F in
    let concat = bit_or (n * 2 ^ 6) not_imms in
    elim (highest_bit concat 7) [
      | none ↦ none
      | some len ↦ if ltb len 1 then none else some (masks_of_length len imms immr datasize)
    ]
