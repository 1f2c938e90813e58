-- ===== src/System.antt =====
-- src/system_registers.cpp: the registers of a processor, its processor state, and both after a
-- reset. A word of 64 bits is a number below 2^64, each array of debug registers a function of the index.
pub mod Sanitize
pub mod Register
pub mod Read
pub mod Write
pub mod State
pub mod Exception
pub mod Step
pub mod Flags
pub mod Again
pub mod Restore
pub mod Return
pub mod Kept
pub mod Tests
use aarchvm.Base.{ℕ, Bool, true, false}

pub record PState : Type 0 where
  pub n : Bool
  pub z : Bool
  pub c : Bool
  pub v : Bool
  pub ss : Bool
  pub il : Bool
  pub d : Bool
  pub a : Bool
  pub i : Bool
  pub f : Bool
  pub pan : Bool
  pub mode : ℕ

pub record SystemRegisters : Type 0 where
  pub sctlr_el1 : ℕ
  pub cpacr_el1 : ℕ
  pub midr_el1 : ℕ
  pub mpidr_el1 : ℕ
  pub revidr_el1 : ℕ
  pub clidr_el1 : ℕ
  pub ctr_el0 : ℕ
  pub dczid_el0 : ℕ
  pub id_aa64pfr0_el1 : ℕ
  pub id_aa64pfr1_el1 : ℕ
  pub id_aa64dfr0_el1 : ℕ
  pub id_aa64dfr1_el1 : ℕ
  pub id_aa64isar0_el1 : ℕ
  pub id_aa64isar1_el1 : ℕ
  pub id_aa64isar2_el1 : ℕ
  pub id_aa64isar3_el1 : ℕ
  pub id_aa64zfr0_el1 : ℕ
  pub id_aa64mmfr0_el1 : ℕ
  pub id_aa64mmfr1_el1 : ℕ
  pub id_aa64mmfr2_el1 : ℕ
  pub id_aa64mmfr3_el1 : ℕ
  pub csselr_el1 : ℕ
  pub ccsidr_el1 : ℕ
  pub ttbr0_el1 : ℕ
  pub ttbr1_el1 : ℕ
  pub tcr_el1 : ℕ
  pub mair_el1 : ℕ
  pub contextidr_el1 : ℕ
  pub osdlr_el1 : ℕ
  pub oslar_el1 : ℕ
  pub oseccr_el1 : ℕ
  pub dbgclaim_el1 : ℕ
  pub dbgprcr_el1 : ℕ
  pub dbgbvr_el1 : ℕ → ℕ
  pub dbgbcr_el1 : ℕ → ℕ
  pub dbgwvr_el1 : ℕ → ℕ
  pub dbgwcr_el1 : ℕ → ℕ
  pub vbar_el1 : ℕ
  pub elr_el1 : ℕ
  pub spsr_el1 : ℕ
  pub sp_el0 : ℕ
  pub sp_el1 : ℕ
  pub spsel : ℕ
  pub par_el1 : ℕ
  pub esr_el1 : ℕ
  pub far_el1 : ℕ
  pub mdscr_el1 : ℕ
  pub pmuserenr_el0 : ℕ
  pub amuserenr_el0 : ℕ
  pub tpidr_el0 : ℕ
  pub tpidr2_el0 : ℕ
  pub tpidrro_el0 : ℕ
  pub tpidr_el1 : ℕ
  pub tpidr_el2 : ℕ
  pub cntfrq_el0 : ℕ
  pub cntvct_el0 : ℕ
  pub cntkctl_el1 : ℕ
  pub fpcr : ℕ
  pub fpsr : ℕ
  pub pstate : PState

abbrev pub reset_pstate : PState
reset_pstate = record {
  n = false;
  z = false;
  c = false;
  v = false;
  ss = false;
  il = false;
  d = false;
  a = false;
  i = false;
  f = false;
  pan = false;
  mode = 5;
}

-- Before the control register is sanitized.
abbrev pub reset_values : SystemRegisters
reset_values = record {
  sctlr_el1 = 0x30D00800;
  cpacr_el1 = 0;
  midr_el1 = 0x410FD034;
  mpidr_el1 = 0x80000000;
  revidr_el1 = 0;
  clidr_el1 = 0;
  ctr_el0 = 0x8444C004;
  dczid_el0 = 0x4;
  id_aa64pfr0_el1 = 0x1000011;
  id_aa64pfr1_el1 = 0;
  id_aa64dfr0_el1 = 0x101006;
  id_aa64dfr1_el1 = 0;
  id_aa64isar0_el1 = 0x210000;
  id_aa64isar1_el1 = 0;
  id_aa64isar2_el1 = 0;
  id_aa64isar3_el1 = 0;
  id_aa64zfr0_el1 = 0;
  id_aa64mmfr0_el1 = 0xFF00005;
  id_aa64mmfr1_el1 = 0x100000;
  id_aa64mmfr2_el1 = 0;
  id_aa64mmfr3_el1 = 0;
  csselr_el1 = 0;
  ccsidr_el1 = 0;
  ttbr0_el1 = 0;
  ttbr1_el1 = 0;
  tcr_el1 = 0;
  mair_el1 = 0;
  contextidr_el1 = 0;
  osdlr_el1 = 0;
  oslar_el1 = 1;
  oseccr_el1 = 0;
  dbgclaim_el1 = 0;
  dbgprcr_el1 = 0;
  dbgbvr_el1 = λ i. 0;
  dbgbcr_el1 = λ i. 0;
  dbgwvr_el1 = λ i. 0;
  dbgwcr_el1 = λ i. 0;
  vbar_el1 = 0;
  elr_el1 = 0;
  spsr_el1 = 0;
  sp_el0 = 0;
  sp_el1 = 0;
  spsel = 1;
  par_el1 = 0;
  esr_el1 = 0;
  far_el1 = 0;
  mdscr_el1 = 0;
  pmuserenr_el0 = 0;
  amuserenr_el0 = 0;
  tpidr_el0 = 0;
  tpidr2_el0 = 0;
  tpidrro_el0 = 0;
  tpidr_el1 = 0;
  tpidr_el2 = 0;
  cntfrq_el0 = 100000000;
  cntvct_el0 = 0;
  cntkctl_el1 = 0;
  fpcr = 0;
  fpsr = 0;
  pstate = reset_pstate;
}
