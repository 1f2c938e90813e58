-- ===== src/System/Register.antt =====
-- src/system_registers.cpp: which register the fields of an instruction name. The switch on the key is
-- the search here, and a constructor stands for each of its labels; four banks of debug registers come
-- first.
use aarchvm.Base.{
  ℕ, ◌*◌, ◌^◌, bit_or, ◌&&◌, ltb, ◌==◌, if◌then◌else◌, Option, none, some, List, [], ◌∷◌,
}

pub data Bank : Type 0 where
  dbgbvr : Bank
  dbgbcr : Bank
  dbgwvr : Bank
  dbgwcr : Bank

pub data Register : Type 0 where
  debug : Bank → ℕ → Register
  midr_el1 : Register
  mpidr_el1 : Register
  revidr_el1 : Register
  ccsidr_el1 : Register
  sctlr_el1 : Register
  cpacr_el1 : Register
  csselr_el1 : Register
  ttbr0_el1 : Register
  ttbr1_el1 : Register
  tcr_el1 : Register
  clidr_el1 : Register
  id_aa64pfr0_el1 : Register
  id_aa64pfr1_el1 : Register
  id_aa64dfr0_el1 : Register
  id_aa64dfr1_el1 : Register
  id_aa64isar0_el1 : Register
  id_aa64isar1_el1 : Register
  id_aa64isar2_el1 : Register
  id_aa64isar3_el1 : Register
  id_aa64zfr0_el1 : Register
  id_aa64mmfr0_el1 : Register
  id_aa64mmfr1_el1 : Register
  id_aa64mmfr2_el1 : Register
  id_aa64mmfr3_el1 : Register
  id_aa64mmfr4_el1 : Register
  id_aa64pfr2_el1 : Register
  id_aa64smfr0_el1 : Register
  reserved_el1 : Register
  mdrar_el1 : Register
  mair_el1 : Register
  contextidr_el1 : Register
  osdlr_el1 : Register
  oslsr_el1 : Register
  oseccr_el1 : Register
  dbgclaimset_el1 : Register
  dbgclaimclr_el1 : Register
  dbgauthstatus_el1 : Register
  dbgprcr_el1 : Register
  vbar_el1 : Register
  elr_el1 : Register
  spsr_el1 : Register
  current_el : Register
  esr_el1 : Register
  far_el1 : Register
  mdscr_el1 : Register
  tpidr_el0 : Register
  tpidrro_el0 : Register
  tpidr_el1 : Register
  tpidr_el2 : Register
  sp_el0 : Register
  sp_el1 : Register
  par_el1 : Register
  daif : Register
  spsel : Register
  ctr_el0 : Register
  dczid_el0 : Register
  cntfrq_el0 : Register
  cntpct_el0 : Register
  cntvct_el0 : Register
  cntkctl_el1 : Register
  fpcr : Register
  fpsr : Register
  pan : Register
  nzcv : Register
  oslar_el1 : Register

unfoldable pub make_key : ℕ → ℕ → ℕ → ℕ → ℕ → ℕ
make_key op0 op1 crn crm op2 =
    bit_or (bit_or (bit_or (bit_or (op0 * 2 ^ 14) (op1 * 2 ^ 11)) (crn * 2 ^ 7)) (crm * 2 ^ 3)) op2

-- The labels of the two switches.
abbrev labels : List (ℕ × Register)
labels =
    (0xC000, midr_el1)
    ∷ (0xC005, mpidr_el1)
    ∷ (0xC006, revidr_el1)
    ∷ (0xC800, ccsidr_el1)
    ∷ (0xC080, sctlr_el1)
    ∷ (0xC082, cpacr_el1)
    ∷ (0xD000, csselr_el1)
    ∷ (0xC100, ttbr0_el1)
    ∷ (0xC101, ttbr1_el1)
    ∷ (0xC102, tcr_el1)
    ∷ (0xC801, clidr_el1)
    ∷ (0xC020, id_aa64pfr0_el1)
    ∷ (0xC021, id_aa64pfr1_el1)
    ∷ (0xC028, id_aa64dfr0_el1)
    ∷ (0xC029, id_aa64dfr1_el1)
    ∷ (0xC030, id_aa64isar0_el1)
    ∷ (0xC031, id_aa64isar1_el1)
    ∷ (0xC032, id_aa64isar2_el1)
    ∷ (0xC033, id_aa64isar3_el1)
    ∷ (0xC024, id_aa64zfr0_el1)
    ∷ (0xC038, id_aa64mmfr0_el1)
    ∷ (0xC039, id_aa64mmfr1_el1)
    ∷ (0xC03A, id_aa64mmfr2_el1)
    ∷ (0xC03B, id_aa64mmfr3_el1)
    ∷ (0xC03C, id_aa64mmfr4_el1)
    ∷ (0xC022, id_aa64pfr2_el1)
    ∷ (0xC025, id_aa64smfr0_el1)
    ∷ (0xC027, reserved_el1)
    ∷ (0x8080, mdrar_el1)
    ∷ (0xC510, mair_el1)
    ∷ (0xC681, contextidr_el1)
    ∷ (0x809C, osdlr_el1)
    ∷ (0x808C, oslsr_el1)
    ∷ (0x8032, oseccr_el1)
    ∷ (0x83C6, dbgclaimset_el1)
    ∷ (0x83CE, dbgclaimclr_el1)
    ∷ (0x83F6, dbgauthstatus_el1)
    ∷ (0x80A4, dbgprcr_el1)
    ∷ (0xC600, vbar_el1)
    ∷ (0xC201, elr_el1)
    ∷ (0xC200, spsr_el1)
    ∷ (0xC212, current_el)
    ∷ (0xC290, esr_el1)
    ∷ (0xC300, far_el1)
    ∷ (0x8012, mdscr_el1)
    ∷ (0xDE82, tpidr_el0)
    ∷ (0xDE83, tpidrro_el0)
    ∷ (0xC684, tpidr_el1)
    ∷ (0xE682, tpidr_el2)
    ∷ (0xC208, sp_el0)
    ∷ (0xE208, sp_el1)
    ∷ (0xC3A0, par_el1)
    ∷ (0xDA11, daif)
    ∷ (0xC210, spsel)
    ∷ (0xD801, ctr_el0)
    ∷ (0xD807, dczid_el0)
    ∷ (0xDF00, cntfrq_el0)
    ∷ (0xDF01, cntpct_el0)
    ∷ (0xDF02, cntvct_el0)
    ∷ (0xC708, cntkctl_el1)
    ∷ (0xDA20, fpcr)
    ∷ (0xDA21, fpsr)
    ∷ (0xC213, pan)
    ∷ (0xDA10, nzcv)
    ∷ (0x8084, oslar_el1)
    ∷ []

unfoldable pub lookup : List (ℕ × Register) → ℕ → Option Register
lookup [] key = none
lookup ((label, r) ∷ rest) key =
    let later = lookup rest key in if label == key then some r else later

unfoldable pub bank_of : ℕ → Option Bank
bank_of op2 =
    if op2 == 4
    then some dbgbvr
    else if op2 == 5
    then some dbgbcr
    else if op2 == 6
    then some dbgwvr
    else if op2 == 7
    then some dbgwcr
    else none

unfoldable pub register_of : ℕ → ℕ → ℕ → ℕ → ℕ → Option Register
register_of op0 op1 crn crm op2 =
    let labelled = lookup labels (make_key op0 op1 crn crm op2) in
    let banked = elim (bank_of op2) as (λ x. Option Register) [
      | none ↦ labelled
      | some b ↦ some (debug b crm)
    ] in
    if op0 == 2 && (op1 == 0 && (crn == 0 && ltb crm 16)) then banked else labelled
