-- ===== src/System/Flags.antt =====
-- src/system_registers.cpp: the processor state, as a number and read from it again.
use aarchvm.Base.{
  ℕ, suc, ◌%◌, ◌<◌, ◌≡◌, refl, ◌∙◌, ap, Bool, true, false, ◌&&◌, ◌||◌, ◌==◌, bit, bit-bit_or,
  bit-bit_and, bit-pow, bit_of_zero, arith,
}
use aarchvm.System.{PState}
use aarchvm.System.Sanitize.{sanitize_spsr_el1}
use aarchvm.System.State.{
  flag, nzcv_bits, daif_bits, pstate_bits, put_nzcv, put_daif, put_pstate_bits,
}

pub bit-flag : (b : Bool) (k i : ℕ) → bit (flag b k) i ≡ (b && (k == i))
unfolding flag
bit-flag true k i = bit-pow k i
bit-flag false k i = bit_of_zero i

bit-mode : (m i : ℕ) → bit (m % 16) (suc (suc (suc (suc i)))) ≡ false
unfolding bit
bit-mode m i = ap (λ k. bit k i) (omega arith) ∙ bit_of_zero i

pub and_true : (b : Bool) → (b && true) ≡ b
and_true true = refl
and_true false = refl

pub and_false : (b : Bool) → (b && false) ≡ false
and_false true = refl
and_false false = refl

pub or_false : (b : Bool) → (b || false) ≡ b
or_false true = refl
or_false false = refl

bit-pstate_bits :
    (p : PState) (i : ℕ)
    → bit (pstate_bits p) i ≡ (
        ((((((((((((p.n && (31 == i)) || (p.z && (30 == i))) || (p.c && (29 == i)))
                    || (p.v && (28 == i)))
                  || (p.ss && (21 == i)))
                || (p.il && (20 == i)))
              || ((((p.d && (9 == i)) || (p.a && (8 == i))) || (p.i && (7 == i)))
                  || (p.f && (6 == i))))
            || (p.pan && (22 == i)))
          || bit (p.mode % 16) i)))))
unfolding pstate_bits nzcv_bits daif_bits
bit-pstate_bits p i = simp (bit-bit_or, bit-flag) refl

-- Each bit of the saved state is a flag of the state that was saved.
bit-sanitize_spsr_el1 : (v i : ℕ) → bit (sanitize_spsr_el1 v) i ≡ (bit v i && bit 0xF07003DF i)
unfolding sanitize_spsr_el1
bit-sanitize_spsr_el1 v i = bit-bit_and i v 0xF07003DF

saved_n : (p : PState) → bit (sanitize_spsr_el1 (pstate_bits p)) 31 ≡ p.n
unfolding bit
saved_n p =
    bit-sanitize_spsr_el1 (pstate_bits p) 31
    ∙ simp (bit-pstate_bits, bit-mode p.mode 27, and_true, and_false, or_false) refl

saved_z : (p : PState) → bit (sanitize_spsr_el1 (pstate_bits p)) 30 ≡ p.z
unfolding bit
saved_z p =
    bit-sanitize_spsr_el1 (pstate_bits p) 30
    ∙ simp (bit-pstate_bits, bit-mode p.mode 26, and_true, and_false, or_false) refl

saved_c : (p : PState) → bit (sanitize_spsr_el1 (pstate_bits p)) 29 ≡ p.c
unfolding bit
saved_c p =
    bit-sanitize_spsr_el1 (pstate_bits p) 29
    ∙ simp (bit-pstate_bits, bit-mode p.mode 25, and_true, and_false, or_false) refl

saved_v : (p : PState) → bit (sanitize_spsr_el1 (pstate_bits p)) 28 ≡ p.v
unfolding bit
saved_v p =
    bit-sanitize_spsr_el1 (pstate_bits p) 28
    ∙ simp (bit-pstate_bits, bit-mode p.mode 24, and_true, and_false, or_false) refl

saved_pan : (p : PState) → bit (sanitize_spsr_el1 (pstate_bits p)) 22 ≡ p.pan
unfolding bit
saved_pan p =
    bit-sanitize_spsr_el1 (pstate_bits p) 22
    ∙ simp (bit-pstate_bits, bit-mode p.mode 18, and_true, and_false, or_false) refl

pub saved_ss : (p : PState) → bit (sanitize_spsr_el1 (pstate_bits p)) 21 ≡ p.ss
unfolding bit
saved_ss p =
    bit-sanitize_spsr_el1 (pstate_bits p) 21
    ∙ simp (bit-pstate_bits, bit-mode p.mode 17, and_true, and_false, or_false) refl

saved_il : (p : PState) → bit (sanitize_spsr_el1 (pstate_bits p)) 20 ≡ p.il
unfolding bit
saved_il p =
    bit-sanitize_spsr_el1 (pstate_bits p) 20
    ∙ simp (bit-pstate_bits, bit-mode p.mode 16, and_true, and_false, or_false) refl

pub saved_d : (p : PState) → bit (sanitize_spsr_el1 (pstate_bits p)) 9 ≡ p.d
unfolding bit
saved_d p =
    bit-sanitize_spsr_el1 (pstate_bits p) 9
    ∙ simp (bit-pstate_bits, bit-mode p.mode 5, and_true, and_false, or_false) refl

saved_a : (p : PState) → bit (sanitize_spsr_el1 (pstate_bits p)) 8 ≡ p.a
unfolding bit
saved_a p =
    bit-sanitize_spsr_el1 (pstate_bits p) 8
    ∙ simp (bit-pstate_bits, bit-mode p.mode 4, and_true, and_false, or_false) refl

saved_i : (p : PState) → bit (sanitize_spsr_el1 (pstate_bits p)) 7 ≡ p.i
unfolding bit
saved_i p =
    bit-sanitize_spsr_el1 (pstate_bits p) 7
    ∙ simp (bit-pstate_bits, bit-mode p.mode 3, and_true, and_false, or_false) refl

saved_f : (p : PState) → bit (sanitize_spsr_el1 (pstate_bits p)) 6 ≡ p.f
unfolding bit
saved_f p =
    bit-sanitize_spsr_el1 (pstate_bits p) 6
    ∙ simp (bit-pstate_bits, bit-mode p.mode 2, and_true, and_false, or_false) refl

low_bit_0 : (p : PState) → bit (sanitize_spsr_el1 (pstate_bits p)) 0 ≡ bit (p.mode % 16) 0
unfolding bit
low_bit_0 p =
    bit-sanitize_spsr_el1 (pstate_bits p) 0 ∙ simp (bit-pstate_bits, and_true, and_false) refl

low_bit_1 : (p : PState) → bit (sanitize_spsr_el1 (pstate_bits p)) 1 ≡ bit (p.mode % 16) 1
unfolding bit
low_bit_1 p =
    bit-sanitize_spsr_el1 (pstate_bits p) 1 ∙ simp (bit-pstate_bits, and_true, and_false) refl

low_bit_2 : (p : PState) → bit (sanitize_spsr_el1 (pstate_bits p)) 2 ≡ bit (p.mode % 16) 2
unfolding bit
low_bit_2 p =
    bit-sanitize_spsr_el1 (pstate_bits p) 2 ∙ simp (bit-pstate_bits, and_true, and_false) refl

low_bit_3 : (p : PState) → bit (sanitize_spsr_el1 (pstate_bits p)) 3 ≡ bit (p.mode % 16) 3
unfolding bit
low_bit_3 p =
    bit-sanitize_spsr_el1 (pstate_bits p) 3 ∙ simp (bit-pstate_bits, and_true, and_false) refl

low_four :
    (a b : ℕ)
    → bit a 0 ≡ bit b 0
    → bit a 1 ≡ bit b 1
    → bit a 2 ≡ bit b 2
    → bit a 3 ≡ bit b 3
    → a % 16 ≡ b % 16
unfolding bit
low_four a b h0 h1 h2 h3 = ground (arith, h0, h1, h2, h3)

pub saved_mode : (p : PState) → p.mode < 16 → sanitize_spsr_el1 (pstate_bits p) % 16 ≡ p.mode
saved_mode p h =
    low_four (sanitize_spsr_el1 (pstate_bits p)) (p.mode % 16) (low_bit_0 p) (low_bit_1 p)
      (low_bit_2 p) (low_bit_3 p)
    ∙ omega (arith, h)

-- The state read from the saved bits is the one saved.
pub put_pstate_bits-pstate_bits :
    (p q : PState) → p.mode < 16 → put_pstate_bits (sanitize_spsr_el1 (pstate_bits p)) q ≡ p
unfolding put_pstate_bits put_nzcv put_daif
put_pstate_bits-pstate_bits p q h =
    simp
      (
        saved_n,
        saved_z,
        saved_c,
        saved_v,
        saved_pan,
        saved_ss,
        saved_il,
        saved_d,
        saved_a,
        saved_i,
        saved_f,
        saved_mode p h,
      )
      refl

pub saved_aarch64 : (p : PState) → p.mode < 16 → bit (sanitize_spsr_el1 (pstate_bits p)) 4 ≡ false
saved_aarch64 p h =
    bit-sanitize_spsr_el1 (pstate_bits p) 4
    ∙ simp (bit-pstate_bits, bit-mode p.mode 0, and_false) refl
