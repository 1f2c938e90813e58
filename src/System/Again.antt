-- ===== src/System/Again.antt =====
-- src/system_registers.cpp: what a register reads, written again, reads the same: the masks of each.
use aarchvm.Base.{
  ℕ, ◌-◌, ◌*◌, ◌%◌, ◌^◌, ◌≡◌, refl, ◌∙◌, Bool, true, false, ◌||◌, ◌&&◌, ◌==◌, bit, bit_and, bit_or,
  bit-bit_or, bit-bit_and, bit_and_again, ones_mask_again, same_bits, if◌then◌else◌, arith, u64_mod,
}
use aarchvm.System.{PState, SystemRegisters}
use aarchvm.System.Sanitize.{
  clear, with_ones, nibble, sctlr_writable_mask, sctlr_res1_mask, sanitize_sctlr_el1,
  sanitize_cpacr_el1, sanitize_csselr_el1, sanitize_vbar_el1, sanitize_contextidr_el1,
  sanitize_cntkctl_el1, sanitize_ttbr_el1, sanitize_tcr_el1,
}
use aarchvm.System.State.{nzcv_bits, daif_bits, put_nzcv, put_daif}
use aarchvm.System.Return.{IsMode, IsConsistent}
use aarchvm.System.Flags.{bit-flag, and_true, and_false, or_false}

-- The same identification registers.
unfoldable pub IsSameModel : SystemRegisters → SystemRegisters → Type 0
IsSameModel t s =
    (t.id_aa64mmfr0_el1 ≡ s.id_aa64mmfr0_el1)
    × (t.id_aa64mmfr1_el1 ≡ s.id_aa64mmfr1_el1)
    × (t.id_aa64mmfr2_el1 ≡ s.id_aa64mmfr2_el1)
    × (t.id_aa64pfr0_el1 ≡ s.id_aa64pfr0_el1)
    × (t.id_aa64pfr1_el1 ≡ s.id_aa64pfr1_el1)
    × (t.id_aa64isar1_el1 ≡ s.id_aa64isar1_el1)
    × (t.id_aa64isar2_el1 ≡ s.id_aa64isar2_el1)

two_masks : (x a b : Bool) → (((((x && a) && b) && a) && b) && a) && b ≡ (x && a) && b
two_masks true true true = refl
two_masks true true false = refl
two_masks true false b = refl
two_masks false a b = refl

three_masks :
    (x a b c : Bool)
    → ((((((((x && a) && b) && c) && a) && b) && c) && a) && b) && c ≡ ((x && a) && b) && c
three_masks true true true true = refl
three_masks true true true false = refl
three_masks true true false c = refl
three_masks true false b c = refl
three_masks false a b c = refl

kept_ones : (x a m : Bool) → ((((x && a) || m) && a) || m) ≡ ((x && a) || m)
kept_ones true true true = refl
kept_ones true true false = refl
kept_ones true false true = refl
kept_ones true false false = refl
kept_ones false true true = refl
kept_ones false false true = refl
kept_ones false true false = refl
kept_ones false false false = refl

pub with_ones_again : (x : ℕ) → with_ones (with_ones x 0x1E0) 0x1E0 ≡ with_ones x 0x1E0
unfolding with_ones clear
with_ones_again x =
    same_bits (with_ones (with_ones x 0x1E0) 0x1E0) (with_ones x 0x1E0)
      (λ i. simp (bit-bit_and, bit-bit_or, kept_ones) refl)

mask_twice : (x mask : ℕ) → bit_and (bit_and (bit_and x mask) mask) mask ≡ bit_and x mask
mask_twice x mask = bit_and_again (bit_and x mask) mask ∙ bit_and_again x mask

sctlr_twice :
    (x mmfr0 mmfr1 mmfr2 pfr0 pfr1 isar1 isar2 : ℕ)
    → sanitize_sctlr_el1
        (sanitize_sctlr_el1
          (sanitize_sctlr_el1 x mmfr0 mmfr1 mmfr2 pfr0 pfr1 isar1 isar2)
          mmfr0
          mmfr1
          mmfr2
          pfr0
          pfr1
          isar1
          isar2)
        mmfr0
        mmfr1
        mmfr2
        pfr0
        pfr1
        isar1
        isar2
      ≡ sanitize_sctlr_el1 x mmfr0 mmfr1 mmfr2 pfr0 pfr1 isar1 isar2
unfolding sanitize_sctlr_el1
sctlr_twice x mmfr0 mmfr1 mmfr2 pfr0 pfr1 isar1 isar2 =
    let w = sctlr_writable_mask mmfr0 mmfr1 mmfr2 pfr0 pfr1 isar1 isar2 in
    let r = sctlr_res1_mask mmfr0 mmfr2 pfr0 pfr1 in
    ones_mask_again (bit_and (bit_or x r) (bit_or w r)) w r ∙ ones_mask_again x w r

pub sctlr_again :
    (s t : SystemRegisters)
    → IsSameModel t s
    → sanitize_sctlr_el1
        (sanitize_sctlr_el1
          (sanitize_sctlr_el1 s.sctlr_el1 s.id_aa64mmfr0_el1 s.id_aa64mmfr1_el1 s.id_aa64mmfr2_el1
            s.id_aa64pfr0_el1 s.id_aa64pfr1_el1 s.id_aa64isar1_el1 s.id_aa64isar2_el1)
          t.id_aa64mmfr0_el1
          t.id_aa64mmfr1_el1
          t.id_aa64mmfr2_el1
          t.id_aa64pfr0_el1
          t.id_aa64pfr1_el1
          t.id_aa64isar1_el1
          t.id_aa64isar2_el1)
        t.id_aa64mmfr0_el1
        t.id_aa64mmfr1_el1
        t.id_aa64mmfr2_el1
        t.id_aa64pfr0_el1
        t.id_aa64pfr1_el1
        t.id_aa64isar1_el1
        t.id_aa64isar2_el1
      ≡ sanitize_sctlr_el1 s.sctlr_el1 s.id_aa64mmfr0_el1 s.id_aa64mmfr1_el1 s.id_aa64mmfr2_el1
          s.id_aa64pfr0_el1 s.id_aa64pfr1_el1 s.id_aa64isar1_el1 s.id_aa64isar2_el1
unfolding IsSameModel
sctlr_again s t m =
    rw (m.0, m.1, m.2, m.3, m.4, m.5, m.6)
      (sctlr_twice s.sctlr_el1 s.id_aa64mmfr0_el1 s.id_aa64mmfr1_el1 s.id_aa64mmfr2_el1
        s.id_aa64pfr0_el1 s.id_aa64pfr1_el1 s.id_aa64isar1_el1 s.id_aa64isar2_el1)

tcr_twice :
    (x mmfr0 mmfr1 mmfr2 pfr0 pfr1 isar1 isar2 : ℕ)
    → sanitize_tcr_el1
        (sanitize_tcr_el1
          (sanitize_tcr_el1 x mmfr0 mmfr1 mmfr2 pfr0 pfr1 isar1 isar2)
          mmfr0
          mmfr1
          mmfr2
          pfr0
          pfr1
          isar1
          isar2)
        mmfr0
        mmfr1
        mmfr2
        pfr0
        pfr1
        isar1
        isar2
      ≡ sanitize_tcr_el1 x mmfr0 mmfr1 mmfr2 pfr0 pfr1 isar1 isar2
unfolding sanitize_tcr_el1 clear
tcr_twice x mmfr0 mmfr1 mmfr2 pfr0 pfr1 isar1 isar2 =
    same_bits
      (sanitize_tcr_el1
        (sanitize_tcr_el1 (sanitize_tcr_el1 x mmfr0 mmfr1 mmfr2 pfr0 pfr1 isar1 isar2) mmfr0 mmfr1
          mmfr2 pfr0 pfr1 isar1 isar2)
        mmfr0 mmfr1 mmfr2 pfr0 pfr1 isar1 isar2)
      (sanitize_tcr_el1 x mmfr0 mmfr1 mmfr2 pfr0 pfr1 isar1 isar2)
      (λ i. simp (bit-bit_and, three_masks) refl)

pub tcr_again :
    (s t : SystemRegisters)
    → IsSameModel t s
    → sanitize_tcr_el1
        (sanitize_tcr_el1
          (sanitize_tcr_el1 s.tcr_el1 s.id_aa64mmfr0_el1 s.id_aa64mmfr1_el1 s.id_aa64mmfr2_el1
            s.id_aa64pfr0_el1 s.id_aa64pfr1_el1 s.id_aa64isar1_el1 s.id_aa64isar2_el1)
          t.id_aa64mmfr0_el1
          t.id_aa64mmfr1_el1
          t.id_aa64mmfr2_el1
          t.id_aa64pfr0_el1
          t.id_aa64pfr1_el1
          t.id_aa64isar1_el1
          t.id_aa64isar2_el1)
        t.id_aa64mmfr0_el1
        t.id_aa64mmfr1_el1
        t.id_aa64mmfr2_el1
        t.id_aa64pfr0_el1
        t.id_aa64pfr1_el1
        t.id_aa64isar1_el1
        t.id_aa64isar2_el1
      ≡ sanitize_tcr_el1 s.tcr_el1 s.id_aa64mmfr0_el1 s.id_aa64mmfr1_el1 s.id_aa64mmfr2_el1
          s.id_aa64pfr0_el1 s.id_aa64pfr1_el1 s.id_aa64isar1_el1 s.id_aa64isar2_el1
unfolding IsSameModel
tcr_again s t m =
    rw (m.0, m.1, m.2, m.3, m.4, m.5, m.6)
      (tcr_twice s.tcr_el1 s.id_aa64mmfr0_el1 s.id_aa64mmfr1_el1 s.id_aa64mmfr2_el1
        s.id_aa64pfr0_el1 s.id_aa64pfr1_el1 s.id_aa64isar1_el1 s.id_aa64isar2_el1)

-- The two tests of a table's base.
ttbr_mask : Bool → Bool → ℕ → ℕ
ttbr_mask b c v =
    if c
    then (if b then v else clear v (0xFF * 2 ^ 56))
    else clear (if b then v else clear v (0xFF * 2 ^ 56)) 1

ttbr_twice :
    (b c : Bool) (x : ℕ) → ttbr_mask b c (ttbr_mask b c (ttbr_mask b c x)) ≡ ttbr_mask b c x
unfolding ttbr_mask clear
ttbr_twice true true x = refl
ttbr_twice true false x = mask_twice x (u64_mod - 1 - 1)
ttbr_twice false true x = mask_twice x (u64_mod - 1 - 0xFF * 2 ^ 56)
ttbr_twice false false x =
    same_bits (ttbr_mask false false (ttbr_mask false false (ttbr_mask false false x)))
      (ttbr_mask false false x) (λ i. simp (bit-bit_and, two_masks) refl)

pub ttbr_again :
    (x : ℕ) (s t : SystemRegisters)
    → IsSameModel t s
    → sanitize_ttbr_el1
        (sanitize_ttbr_el1
          (sanitize_ttbr_el1 x s.id_aa64mmfr0_el1 s.id_aa64mmfr2_el1)
          t.id_aa64mmfr0_el1
          t.id_aa64mmfr2_el1)
        t.id_aa64mmfr0_el1
        t.id_aa64mmfr2_el1
      ≡ sanitize_ttbr_el1 x s.id_aa64mmfr0_el1 s.id_aa64mmfr2_el1
unfolding IsSameModel sanitize_ttbr_el1 ttbr_mask
ttbr_again x s t m =
    rw (m.0, m.2)
      (ttbr_twice (nibble s.id_aa64mmfr0_el1 4 == 2) (nibble s.id_aa64mmfr2_el1 12 == 1) x)

pub cpacr_el1_again :
    (x : ℕ) → sanitize_cpacr_el1 (sanitize_cpacr_el1 (sanitize_cpacr_el1 x)) ≡ sanitize_cpacr_el1 x
unfolding sanitize_cpacr_el1
cpacr_el1_again x = mask_twice x 0x300000

pub csselr_el1_again :
    (x : ℕ)
    → sanitize_csselr_el1 (sanitize_csselr_el1 (sanitize_csselr_el1 x)) ≡ sanitize_csselr_el1 x
unfolding sanitize_csselr_el1
csselr_el1_again x = mask_twice x 0xF

pub vbar_el1_again :
    (x : ℕ) → sanitize_vbar_el1 (sanitize_vbar_el1 (sanitize_vbar_el1 x)) ≡ sanitize_vbar_el1 x
unfolding sanitize_vbar_el1
vbar_el1_again x = mask_twice x 0xFFFFFFFFFFFFF800

pub contextidr_el1_again :
    (x : ℕ)
    → sanitize_contextidr_el1 (sanitize_contextidr_el1 (sanitize_contextidr_el1 x))
      ≡ sanitize_contextidr_el1 x
unfolding sanitize_contextidr_el1
contextidr_el1_again x = mask_twice x 0xFFFFFFFF

pub cntkctl_el1_again :
    (x : ℕ)
    → sanitize_cntkctl_el1 (sanitize_cntkctl_el1 (sanitize_cntkctl_el1 x)) ≡ sanitize_cntkctl_el1 x
unfolding sanitize_cntkctl_el1
cntkctl_el1_again x = mask_twice x 0x3FF

nzcv_n : (p : PState) → bit (nzcv_bits p) 31 ≡ p.n
unfolding nzcv_bits
nzcv_n p = simp (bit-bit_or, bit-flag, and_true, and_false, or_false) refl

nzcv_z : (p : PState) → bit (nzcv_bits p) 30 ≡ p.z
unfolding nzcv_bits
nzcv_z p = simp (bit-bit_or, bit-flag, and_true, and_false, or_false) refl

nzcv_c : (p : PState) → bit (nzcv_bits p) 29 ≡ p.c
unfolding nzcv_bits
nzcv_c p = simp (bit-bit_or, bit-flag, and_true, and_false, or_false) refl

nzcv_v : (p : PState) → bit (nzcv_bits p) 28 ≡ p.v
unfolding nzcv_bits
nzcv_v p = simp (bit-bit_or, bit-flag, and_true, and_false) refl

pub nzcv_again : (p q : PState) → nzcv_bits (put_nzcv (nzcv_bits p) q) ≡ nzcv_bits p
unfolding put_nzcv nzcv_bits
nzcv_again p q = rw (nzcv_n p, nzcv_z p, nzcv_c p, nzcv_v p) refl

daif_d : (p : PState) → bit (daif_bits p) 9 ≡ p.d
unfolding daif_bits
daif_d p = simp (bit-bit_or, bit-flag, and_true, and_false, or_false) refl

daif_a : (p : PState) → bit (daif_bits p) 8 ≡ p.a
unfolding daif_bits
daif_a p = simp (bit-bit_or, bit-flag, and_true, and_false, or_false) refl

daif_i : (p : PState) → bit (daif_bits p) 7 ≡ p.i
unfolding daif_bits
daif_i p = simp (bit-bit_or, bit-flag, and_true, and_false, or_false) refl

daif_f : (p : PState) → bit (daif_bits p) 6 ≡ p.f
unfolding daif_bits
daif_f p = simp (bit-bit_or, bit-flag, and_true, and_false) refl

pub daif_again : (p q : PState) → daif_bits (put_daif (daif_bits p) q) ≡ daif_bits p
unfolding put_daif daif_bits
daif_again p q = rw (daif_d p, daif_a p, daif_i p, daif_f p) refl

abbrev pub one_if : Bool → ℕ
one_if b = if b then 1 else 0

pub pan_again : (b : Bool) → one_if (bit (one_if b) 0) ≡ one_if b
unfolding bit
pan_again true = refl
pan_again false = refl

pub spsel_again : (s : SystemRegisters) → IsConsistent s → s.spsel % 2 ≡ s.spsel
unfolding IsConsistent IsMode
spsel_again s c = ground (arith, c)
