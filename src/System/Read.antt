-- ===== src/System/Read.antt =====
-- src/system_registers.cpp: what an instruction reads from each register.
use aarchvm.Base.{
  ℕ, ◌+◌, ◌*◌, ◌/◌, ◌%◌, ◌^◌, bit_and, bit_or, ◌||◌, leb, ◌==◌, if◌then◌else◌, Option, none, some,
  bit,
}
use aarchvm.System.{SystemRegisters}
use aarchvm.System.Sanitize.{
  with_ones, sanitize_sctlr_el1, sanitize_mdscr_el1, sanitize_cpacr_el1, sanitize_csselr_el1,
  sanitize_vbar_el1, sanitize_contextidr_el1, sanitize_cntkctl_el1, sanitize_ttbr_el1,
  sanitize_tcr_el1,
}
use aarchvm.System.State.{el, uses_sp_el0, nzcv_bits, daif_bits}
use aarchvm.System.Register.{
  Bank, dbgbvr, dbgbcr, dbgwvr, dbgwcr, Register, register_of, debug, midr_el1, mpidr_el1,
  revidr_el1, ccsidr_el1, sctlr_el1, cpacr_el1, csselr_el1, ttbr0_el1, ttbr1_el1, tcr_el1,
  clidr_el1, id_aa64pfr0_el1, id_aa64pfr1_el1, id_aa64dfr0_el1, id_aa64dfr1_el1, id_aa64isar0_el1,
  id_aa64isar1_el1, id_aa64isar2_el1, id_aa64isar3_el1, id_aa64zfr0_el1, id_aa64mmfr0_el1,
  id_aa64mmfr1_el1, id_aa64mmfr2_el1, id_aa64mmfr3_el1, id_aa64mmfr4_el1, id_aa64pfr2_el1,
  id_aa64smfr0_el1, reserved_el1, mdrar_el1, mair_el1, contextidr_el1, osdlr_el1, oslsr_el1,
  oseccr_el1, dbgclaimset_el1, dbgclaimclr_el1, dbgauthstatus_el1, dbgprcr_el1, vbar_el1, elr_el1,
  spsr_el1, current_el, esr_el1, far_el1, mdscr_el1, tpidr_el0, tpidrro_el0, tpidr_el1, tpidr_el2,
  sp_el0, sp_el1, par_el1, daif, spsel, ctr_el0, dczid_el0, cntfrq_el0, cntpct_el0, cntvct_el0,
  cntkctl_el1, fpcr, fpsr, pan, nzcv, oslar_el1,
}

abbrev pub extended_count : ℕ → ℕ → ℕ
extended_count extended legacy =
    if extended == 0 then (if legacy == 15 then 16 else legacy + 1) else extended + 1

unfoldable pub decode_debug_resource_count : ℕ → ℕ → ℕ → ℕ → ℕ
decode_debug_resource_count dfr0 dfr0_shift dfr1 dfr1_shift =
    extended_count (dfr1 / 2 ^ dfr1_shift % 256) (dfr0 / 2 ^ dfr0_shift % 16)

unfoldable pub breakpoint_resource_count : SystemRegisters → ℕ
breakpoint_resource_count s = decode_debug_resource_count s.id_aa64dfr0_el1 12 s.id_aa64dfr1_el1 8

unfoldable pub watchpoint_resource_count : SystemRegisters → ℕ
watchpoint_resource_count s = decode_debug_resource_count s.id_aa64dfr0_el1 20 s.id_aa64dfr1_el1 16

unfoldable pub limit : Bank → SystemRegisters → ℕ
limit dbgbvr s = breakpoint_resource_count s
limit dbgbcr s = breakpoint_resource_count s
limit dbgwvr s = watchpoint_resource_count s
limit dbgwcr s = watchpoint_resource_count s

-- A control register of a breakpoint reads with its four byte selects set.
unfoldable pub bank_value : Bank → ℕ → SystemRegisters → ℕ
bank_value dbgbvr i s = s.dbgbvr_el1 i
bank_value dbgbcr i s = with_ones (s.dbgbcr_el1 i) 0x1E0
bank_value dbgwvr i s = s.dbgwvr_el1 i
bank_value dbgwcr i s = s.dbgwcr_el1 i

unfoldable pub read_register : Register → SystemRegisters → Option ℕ
read_register (debug b i) s = if leb (limit b s) i then none else some (bank_value b i s)
read_register midr_el1 s = some s.midr_el1
read_register mpidr_el1 s = some s.mpidr_el1
read_register revidr_el1 s = some s.revidr_el1
read_register ccsidr_el1 s = some s.ccsidr_el1
read_register sctlr_el1 s = some (
    sanitize_sctlr_el1 s.sctlr_el1 s.id_aa64mmfr0_el1 s.id_aa64mmfr1_el1 s.id_aa64mmfr2_el1
      s.id_aa64pfr0_el1 s.id_aa64pfr1_el1 s.id_aa64isar1_el1 s.id_aa64isar2_el1)
read_register cpacr_el1 s = some (sanitize_cpacr_el1 s.cpacr_el1)
read_register csselr_el1 s = some (sanitize_csselr_el1 s.csselr_el1)
read_register ttbr0_el1 s =
    some (sanitize_ttbr_el1 s.ttbr0_el1 s.id_aa64mmfr0_el1 s.id_aa64mmfr2_el1)
read_register ttbr1_el1 s =
    some (sanitize_ttbr_el1 s.ttbr1_el1 s.id_aa64mmfr0_el1 s.id_aa64mmfr2_el1)
read_register tcr_el1 s = some (
    sanitize_tcr_el1 s.tcr_el1 s.id_aa64mmfr0_el1 s.id_aa64mmfr1_el1 s.id_aa64mmfr2_el1
      s.id_aa64pfr0_el1 s.id_aa64pfr1_el1 s.id_aa64isar1_el1 s.id_aa64isar2_el1)
read_register clidr_el1 s = some s.clidr_el1
read_register id_aa64pfr0_el1 s = some s.id_aa64pfr0_el1
read_register id_aa64pfr1_el1 s = some s.id_aa64pfr1_el1
read_register id_aa64dfr0_el1 s = some s.id_aa64dfr0_el1
read_register id_aa64dfr1_el1 s = some s.id_aa64dfr1_el1
read_register id_aa64isar0_el1 s = some s.id_aa64isar0_el1
read_register id_aa64isar1_el1 s = some s.id_aa64isar1_el1
read_register id_aa64isar2_el1 s = some s.id_aa64isar2_el1
read_register id_aa64isar3_el1 s = some s.id_aa64isar3_el1
read_register id_aa64zfr0_el1 s = some s.id_aa64zfr0_el1
read_register id_aa64mmfr0_el1 s = some s.id_aa64mmfr0_el1
read_register id_aa64mmfr1_el1 s = some s.id_aa64mmfr1_el1
read_register id_aa64mmfr2_el1 s = some s.id_aa64mmfr2_el1
read_register id_aa64mmfr3_el1 s = some s.id_aa64mmfr3_el1
read_register id_aa64mmfr4_el1 s = some 0
read_register id_aa64pfr2_el1 s = some 0
read_register id_aa64smfr0_el1 s = some 0
read_register reserved_el1 s = some 0
read_register mdrar_el1 s = some 0
read_register mair_el1 s = some s.mair_el1
read_register contextidr_el1 s = some (sanitize_contextidr_el1 s.contextidr_el1)
read_register osdlr_el1 s = some s.osdlr_el1
read_register oslsr_el1 s = some (bit_or 8 (s.oslar_el1 % 2 * 2))
read_register oseccr_el1 s = some (if bit s.oslar_el1 0 then s.oseccr_el1 % 2 ^ 32 else 0)
read_register dbgclaimset_el1 s = some (bit_and s.dbgclaim_el1 0xFF)
read_register dbgclaimclr_el1 s = some (bit_and s.dbgclaim_el1 0xFF)
read_register dbgauthstatus_el1 s = some 10
read_register dbgprcr_el1 s = some s.dbgprcr_el1
read_register vbar_el1 s = some (sanitize_vbar_el1 s.vbar_el1)
read_register elr_el1 s = some s.elr_el1
read_register spsr_el1 s = some s.spsr_el1
read_register current_el s = some (el s.pstate * 4)
read_register esr_el1 s = some s.esr_el1
read_register far_el1 s = some s.far_el1
read_register mdscr_el1 s = some (sanitize_mdscr_el1 s.mdscr_el1)
read_register tpidr_el0 s = some s.tpidr_el0
read_register tpidrro_el0 s = some s.tpidrro_el0
read_register tpidr_el1 s = some s.tpidr_el1
read_register tpidr_el2 s = some s.tpidr_el2
read_register sp_el0 s = if el s.pstate == 0 || uses_sp_el0 s.pstate then none else some s.sp_el0
read_register sp_el1 s = if leb (el s.pstate) 1 then none else some s.sp_el1
read_register par_el1 s = some s.par_el1
read_register daif s = some (daif_bits s.pstate)
read_register spsel s = some s.spsel
read_register ctr_el0 s = some s.ctr_el0
read_register dczid_el0 s = some s.dczid_el0
read_register cntfrq_el0 s = some s.cntfrq_el0
read_register cntpct_el0 s = some s.cntvct_el0
read_register cntvct_el0 s = some s.cntvct_el0
read_register cntkctl_el1 s = some (sanitize_cntkctl_el1 s.cntkctl_el1)
read_register fpcr s = some s.fpcr
read_register fpsr s = some s.fpsr
read_register pan s = some (if s.pstate.pan then 1 else 0)
read_register nzcv s = some (nzcv_bits s.pstate)
read_register oslar_el1 s = none

unfoldable pub read : ℕ → ℕ → ℕ → ℕ → ℕ → SystemRegisters → Option ℕ
read op0 op1 crn crm op2 s = elim (register_of op0 op1 crn crm op2) [
  | none ↦ none
  | some r ↦ read_register r s
]
