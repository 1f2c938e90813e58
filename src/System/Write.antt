-- ===== src/System/Write.antt =====
-- src/system_registers.cpp: what an instruction writes to each register; none where the write is refused.
use aarchvm.Base.{
  ℕ, ◌%◌, ◌^◌, bit_or, ◌||◌, leb, ◌==◌, if◌then◌else◌, Option, none, some, bit, update,
}
use aarchvm.System.{SystemRegisters}
use aarchvm.System.Sanitize.{
  clear, sanitize_sctlr_el1, sanitize_spsr_el1, sanitize_cpacr_el1, sanitize_csselr_el1,
  sanitize_vbar_el1, sanitize_contextidr_el1, sanitize_cntkctl_el1, sanitize_dbgprcr_el1,
  sanitize_fpsr, sanitize_fpcr, sanitize_ttbr_el1, sanitize_tcr_el1, merge_mdscr_el1,
}
use aarchvm.System.State.{el, uses_sp_el0, with_pstate, set_nzcv, set_daif, set_spsel}
use aarchvm.System.Register.{
  Bank, dbgbvr, dbgbcr, dbgwvr, dbgwcr, Register, register_of, debug, midr_el1, mpidr_el1,
  revidr_el1, ccsidr_el1, sctlr_el1, cpacr_el1, csselr_el1, ttbr0_el1, ttbr1_el1, tcr_el1,
  clidr_el1, id_aa64pfr0_el1, id_aa64pfr1_el1, id_aa64dfr0_el1, id_aa64dfr1_el1, id_aa64isar0_el1,
  id_aa64isar1_el1, id_aa64isar2_el1, id_aa64isar3_el1, id_aa64zfr0_el1, id_aa64mmfr0_el1,
  id_aa64mmfr1_el1, id_aa64mmfr2_el1, id_aa64mmfr3_el1, id_aa64mmfr4_el1, id_aa64pfr2_el1,
  id_aa64smfr0_el1, reserved_el1, mdrar_el1, mair_el1, contextidr_el1, osdlr_el1, oslsr_el1,
  oseccr_el1, dbgclaimset_el1, dbgclaimclr_el1, dbgauthstatus_el1, dbgprcr_el1, vbar_el1, elr_el1,
  spsr_el1, current_el, esr_el1, far_el1, mdscr_el1, tpidr_el0, tpidrro_el0, tpidr_el1, tpidr_el2,
  sp_el0, sp_el1, par_el1, daif, spsel, ctr_el0, dczid_el0, cntfrq_el0, cntpct_el0, cntvct_el0,
  cntkctl_el1, fpcr, fpsr, pan, nzcv, oslar_el1,
}
use aarchvm.System.Read.{limit}

unfoldable pub write_bank : Bank → ℕ → ℕ → SystemRegisters → SystemRegisters
write_bank dbgbvr i value s = record s { dbgbvr_el1 = update s.dbgbvr_el1 i value }
write_bank dbgbcr i value s = record s { dbgbcr_el1 = update s.dbgbcr_el1 i value }
write_bank dbgwvr i value s = record s { dbgwvr_el1 = update s.dbgwvr_el1 i value }
write_bank dbgwcr i value s = record s { dbgwcr_el1 = update s.dbgwcr_el1 i value }

unfoldable pub write_register : Register → ℕ → SystemRegisters → Option SystemRegisters
write_register (debug b i) value s =
    if leb (limit b s) i then none else some (write_bank b i value s)
write_register midr_el1 value s = none
write_register mpidr_el1 value s = none
write_register revidr_el1 value s = none
write_register ccsidr_el1 value s = none
write_register sctlr_el1 value s = some (record s {
  sctlr_el1 =
      sanitize_sctlr_el1 value s.id_aa64mmfr0_el1 s.id_aa64mmfr1_el1 s.id_aa64mmfr2_el1
        s.id_aa64pfr0_el1 s.id_aa64pfr1_el1 s.id_aa64isar1_el1 s.id_aa64isar2_el1;
})
write_register cpacr_el1 value s = some (record s { cpacr_el1 = sanitize_cpacr_el1 value })
write_register csselr_el1 value s = some (record s { csselr_el1 = sanitize_csselr_el1 value })
write_register ttbr0_el1 value s =
    some (record s { ttbr0_el1 = sanitize_ttbr_el1 value s.id_aa64mmfr0_el1 s.id_aa64mmfr2_el1 })
write_register ttbr1_el1 value s =
    some (record s { ttbr1_el1 = sanitize_ttbr_el1 value s.id_aa64mmfr0_el1 s.id_aa64mmfr2_el1 })
write_register tcr_el1 value s = some (record s {
  tcr_el1 =
      sanitize_tcr_el1 value s.id_aa64mmfr0_el1 s.id_aa64mmfr1_el1 s.id_aa64mmfr2_el1
        s.id_aa64pfr0_el1 s.id_aa64pfr1_el1 s.id_aa64isar1_el1 s.id_aa64isar2_el1;
})
write_register clidr_el1 value s = none
write_register id_aa64pfr0_el1 value s = none
write_register id_aa64pfr1_el1 value s = none
write_register id_aa64dfr0_el1 value s = none
write_register id_aa64dfr1_el1 value s = none
write_register id_aa64isar0_el1 value s = none
write_register id_aa64isar1_el1 value s = none
write_register id_aa64isar2_el1 value s = none
write_register id_aa64isar3_el1 value s = none
write_register id_aa64zfr0_el1 value s = none
write_register id_aa64mmfr0_el1 value s = none
write_register id_aa64mmfr1_el1 value s = none
write_register id_aa64mmfr2_el1 value s = none
write_register id_aa64mmfr3_el1 value s = none
write_register id_aa64mmfr4_el1 value s = none
write_register id_aa64pfr2_el1 value s = none
write_register id_aa64smfr0_el1 value s = none
write_register reserved_el1 value s = none
write_register mdrar_el1 value s = none
write_register mair_el1 value s = some (record s { mair_el1 = value })
write_register contextidr_el1 value s =
    some (record s { contextidr_el1 = sanitize_contextidr_el1 value })
write_register osdlr_el1 value s = some (record s { osdlr_el1 = value })
write_register oslsr_el1 value s = none
write_register oseccr_el1 value s =
    some (record s { oseccr_el1 = if bit s.oslar_el1 0 then value % 2 ^ 32 else s.oseccr_el1 })
write_register dbgclaimset_el1 value s =
    some (record s { dbgclaim_el1 = bit_or s.dbgclaim_el1 (value % 256) })
write_register dbgclaimclr_el1 value s =
    some (record s { dbgclaim_el1 = clear s.dbgclaim_el1 (value % 256) })
write_register dbgauthstatus_el1 value s = none
write_register dbgprcr_el1 value s = some (record s { dbgprcr_el1 = sanitize_dbgprcr_el1 value })
write_register vbar_el1 value s = some (record s { vbar_el1 = sanitize_vbar_el1 value })
write_register elr_el1 value s = some (record s { elr_el1 = value })
write_register spsr_el1 value s = some (record s { spsr_el1 = sanitize_spsr_el1 value })
write_register current_el value s = none
write_register esr_el1 value s = some (record s { esr_el1 = value })
write_register far_el1 value s = some (record s { far_el1 = value })
write_register mdscr_el1 value s =
    some (record s { mdscr_el1 = merge_mdscr_el1 s.mdscr_el1 value (bit s.oslar_el1 0) })
write_register tpidr_el0 value s = some (record s { tpidr_el0 = value })
write_register tpidrro_el0 value s = some (record s { tpidrro_el0 = value })
write_register tpidr_el1 value s = some (record s { tpidr_el1 = value })
write_register tpidr_el2 value s = some (record s { tpidr_el2 = value })
write_register sp_el0 value s =
    if el s.pstate == 0 || uses_sp_el0 s.pstate then none else some (record s { sp_el0 = value })
write_register sp_el1 value s =
    if leb (el s.pstate) 1 then none else some (record s { sp_el1 = value })
write_register par_el1 value s = some (record s { par_el1 = value })
write_register daif value s = some (set_daif value s)
write_register spsel value s = some (set_spsel value s)
write_register ctr_el0 value s = none
write_register dczid_el0 value s = none
write_register cntfrq_el0 value s = none
write_register cntpct_el0 value s = none
write_register cntvct_el0 value s = none
write_register cntkctl_el1 value s = some (record s { cntkctl_el1 = sanitize_cntkctl_el1 value })
write_register fpcr value s = some (record s { fpcr = sanitize_fpcr value })
write_register fpsr value s = some (record s { fpsr = sanitize_fpsr value })
write_register pan value s = some (with_pstate s (record s.pstate { pan = bit value 0 }))
write_register nzcv value s = some (set_nzcv value s)
write_register oslar_el1 value s = some (record s { oslar_el1 = value % 2 })

unfoldable pub write : ℕ → ℕ → ℕ → ℕ → ℕ → ℕ → SystemRegisters → Option SystemRegisters
write op0 op1 crn crm op2 value s = elim (register_of op0 op1 crn crm op2) [
  | none ↦ none
  | some r ↦ write_register r value s
]
