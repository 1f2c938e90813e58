-- ===== src/System/Sanitize.antt =====
-- src/system_registers.cpp: the bits of each register that a write can change. Masks of the source are
-- written out as numbers, `~mask` as the other bits of a 64-bit word.
use aarchvm.Base.{
  ℕ, ◌+◌, ◌-◌, ◌*◌, ◌/◌, ◌%◌, ◌^◌, bit_and, bit_or, Bool, not, ◌&&◌, ◌||◌, leb, ◌==◌, if◌then◌else◌,
  u64_mod,
}

unfoldable pub clear : ℕ → ℕ → ℕ
clear value mask = bit_and value (u64_mod - 1 - mask)

unfoldable pub with_ones : ℕ → ℕ → ℕ
with_ones value mask = bit_or (clear value mask) mask

-- `if (condition) mask |= bits;`
abbrev pub bits_if : Bool → ℕ → ℕ → ℕ
bits_if condition bits mask = if condition then bit_or mask bits else mask

-- Four bits of an identification register.
abbrev pub nibble : ℕ → ℕ → ℕ
nibble value shift = value / 2 ^ shift % 16

abbrev pub nonzero : ℕ → Bool
nonzero n = not (n == 0)

unfoldable pub has_pauth : ℕ → ℕ → Bool
has_pauth isar1 isar2 =
    nonzero (nibble isar1 4)
    || (nonzero (nibble isar1 8)
        || (nonzero (nibble isar1 24)
            || (nonzero (nibble isar1 28)
                || (nonzero (nibble isar2 8) || nonzero (nibble isar2 12)))))

unfoldable pub sctlr_writable_mask : ℕ → ℕ → ℕ → ℕ → ℕ → ℕ → ℕ → ℕ
sctlr_writable_mask mmfr0 mmfr1 mmfr2 pfr0 pfr1 isar1 isar2 =
    let csv2 = nibble pfr0 56 in
    let m0 = bits_if (nonzero (nibble mmfr1 52)) (2 ^ 63) 0x48DD21F in
    let m1 = bits_if (nonzero (nibble pfr1 36)) (2 ^ 62 + 2 ^ 61) m0 in
    let m2 = bits_if (nonzero (nibble pfr1 24)) (2 ^ 60) m1 in
    let m3 = bits_if (nonzero (nibble isar1 60)) (2 ^ 56) m2 in
    let m4 = bits_if (leb 3 (nibble isar1 60)) (2 ^ 55) m3 in
    let m5 = bits_if (leb 2 (nibble isar1 60)) (2 ^ 54) m4 in
    let m6 = bits_if (nonzero (nibble mmfr1 32)) (15 * 2 ^ 46 + 2 ^ 45) m5 in
    let m7 = bits_if (nonzero (nibble pfr1 4)) (2 ^ 44) m6 in
    let m8 = bits_if (leb 2 (nibble pfr1 8)) 0xFC000000000 m7 in
    let m9 = bits_if (leb 2 (nibble pfr1 8) && nibble pfr1 40 == 0) (2 ^ 37) m8 in
    let m10 = bits_if (nonzero (nibble pfr1 0)) (2 ^ 36 + 2 ^ 35) m9 in
    let m11 = bits_if (nonzero (nibble isar2 16)) (2 ^ 33) m10 in
    let m12 = bits_if (nonzero (nibble mmfr1 56)) (2 ^ 32) m11 in
    let m13 = bits_if (has_pauth isar1 isar2) 0xC8002000 m12 in
    let m14 = bits_if (nonzero (nibble mmfr2 8)) 0x30000000 m13 in
    let m15 = bits_if (nonzero (nibble mmfr0 8)) (2 ^ 25) m14 in
    let m16 = bits_if (nonzero (nibble mmfr0 16)) (2 ^ 24) m15 in
    let m17 = bits_if (nonzero (nibble mmfr0 44)) (2 ^ 22 + 2 ^ 11) m16 in
    let m18 = bits_if (nonzero (nibble mmfr2 12)) (2 ^ 21) m17 in
    let m19 = bits_if (leb 2 csv2 || (csv2 == 1 && leb 2 (nibble pfr1 32))) (2 ^ 20) m18 in
    let m20 = bits_if (nonzero (nibble isar1 40)) (2 ^ 10) m19 in
    let m21 = bits_if (nibble pfr0 0 == 2) 0x180 m20 in
    bits_if (nonzero (nibble mmfr2 32)) (2 ^ 6) m21

unfoldable pub sctlr_res1_mask : ℕ → ℕ → ℕ → ℕ → ℕ
sctlr_res1_mask mmfr0 mmfr2 pfr0 pfr1 =
    let csv2 = nibble pfr0 56 in
    let m0 = bits_if (nibble mmfr2 8 == 0) 0x30000000 0 in
    let m1 = bits_if (nibble mmfr0 44 == 0) (2 ^ 22 + 2 ^ 11) m0 in
    let m2 = bits_if (not (leb 2 csv2 || (csv2 == 1 && leb 2 (nibble pfr1 32)))) (2 ^ 20) m1 in
    bits_if (not (nibble pfr0 0 == 2)) 0x180 m2

unfoldable pub sanitize_sctlr_el1 : ℕ → ℕ → ℕ → ℕ → ℕ → ℕ → ℕ → ℕ → ℕ
sanitize_sctlr_el1 value mmfr0 mmfr1 mmfr2 pfr0 pfr1 isar1 isar2 =
    let res1_mask = sctlr_res1_mask mmfr0 mmfr2 pfr0 pfr1 in
    let writable_mask = sctlr_writable_mask mmfr0 mmfr1 mmfr2 pfr0 pfr1 isar1 isar2 in
    bit_and (bit_or value res1_mask) (bit_or writable_mask res1_mask)

unfoldable pub sanitize_spsr_el1 : ℕ → ℕ
sanitize_spsr_el1 value = bit_and value 0xF07003DF

unfoldable pub sanitize_mdscr_el1 : ℕ → ℕ
sanitize_mdscr_el1 value = bit_and value 0x6CE0F041

unfoldable pub sanitize_cpacr_el1 : ℕ → ℕ
sanitize_cpacr_el1 value = bit_and value 0x300000

unfoldable pub sanitize_csselr_el1 : ℕ → ℕ
sanitize_csselr_el1 value = bit_and value 0xF

unfoldable pub sanitize_vbar_el1 : ℕ → ℕ
sanitize_vbar_el1 value = bit_and value 0xFFFFFFFFFFFFF800

unfoldable pub sanitize_contextidr_el1 : ℕ → ℕ
sanitize_contextidr_el1 value = bit_and value 0xFFFFFFFF

unfoldable pub sanitize_cntkctl_el1 : ℕ → ℕ
sanitize_cntkctl_el1 value = bit_and value 0x3FF

unfoldable pub sanitize_dbgprcr_el1 : ℕ → ℕ
sanitize_dbgprcr_el1 value = bit_and value 0x1

unfoldable pub sanitize_fpsr : ℕ → ℕ
sanitize_fpsr value = bit_and value 0x800009F

unfoldable pub sanitize_fpcr : ℕ → ℕ
sanitize_fpcr value = bit_and value 0x7F70000

unfoldable pub sanitize_ttbr_el1 : ℕ → ℕ → ℕ → ℕ
sanitize_ttbr_el1 value mmfr0 mmfr2 =
    let narrow = if nibble mmfr0 4 == 2 then value else clear value (0xFF * 2 ^ 56) in
    if nibble mmfr2 12 == 1 then narrow else clear narrow 1

unfoldable pub tcr_mask : ℕ → ℕ → ℕ → ℕ → ℕ → ℕ → ℕ → ℕ
tcr_mask mmfr0 mmfr1 mmfr2 pfr0 pfr1 isar1 isar2 =
    let m0 = bits_if (nibble mmfr0 4 == 2) (2 ^ 36) 0x67FFFFFFFF in
    let m1 = bits_if (nonzero (nibble mmfr1 0)) (3 * 2 ^ 39) m0 in
    let m2 = bits_if (nonzero (nibble mmfr1 12)) (3 * 2 ^ 41) m1 in
    let m3 = bits_if (leb 2 (nibble mmfr1 12)) (0xFF * 2 ^ 43) m2 in
    let m4 = bits_if (has_pauth isar1 isar2) (3 * 2 ^ 51) m3 in
    let m5 = bits_if (nonzero (nibble pfr0 32)) (3 * 2 ^ 53) m4 in
    let m6 = bits_if (nonzero (nibble mmfr2 60)) (3 * 2 ^ 55) m5 in
    bits_if (nonzero (nibble pfr1 8)) (3 * 2 ^ 57 + 3 * 2 ^ 60) m6

unfoldable pub sanitize_tcr_el1 : ℕ → ℕ → ℕ → ℕ → ℕ → ℕ → ℕ → ℕ → ℕ
sanitize_tcr_el1 value mmfr0 mmfr1 mmfr2 pfr0 pfr1 isar1 isar2 =
    let known = clear (clear value 0xC000000800000040) (2 ^ 59) in
    bit_and known (tcr_mask mmfr0 mmfr1 mmfr2 pfr0 pfr1 isar1 isar2)

-- The bits that the lock of the debug registers frees are 0x6CE04040.
unfoldable pub merge_mdscr_el1 : ℕ → ℕ → Bool → ℕ
merge_mdscr_el1 current value os_lock_locked =
    let writable = bits_if os_lock_locked 0x6CE04040 0xB001 in
    sanitize_mdscr_el1 (bit_or (clear current writable) (bit_and value writable))
