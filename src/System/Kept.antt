-- ===== src/System/Kept.antt =====
-- src/system_registers.cpp: what every write, exception and return keeps of the registers.
use aarchvm.Base.{
  ℕ, ◌%◌, ◌≡◌, ◌≢◌, refl, Bool, true, false, ◌==◌, ◌||◌, leb, bit_or, bit_and_again, if◌then◌else◌,
  arith, ◌⊎◌, inl, inr, Option, none, some,
}
use mathlib.Core.Path.{subst}
use aarchvm.System.{SystemRegisters}
use aarchvm.System.Sanitize.{sanitize_spsr_el1, sanitize_fpcr, sanitize_fpsr, sanitize_dbgprcr_el1}
use aarchvm.System.State.{
  el, uses_sp_el0, put_nzcv, put_daif, put_pstate_bits, set_pstate_bits, set_spsel, daif_set,
  daif_clr,
}
use aarchvm.System.Register.{
  Bank, dbgbvr, dbgbcr, dbgwvr, dbgwcr, Register, debug, midr_el1, mpidr_el1, revidr_el1,
  ccsidr_el1, sctlr_el1, cpacr_el1, csselr_el1, ttbr0_el1, ttbr1_el1, tcr_el1, clidr_el1,
  id_aa64pfr0_el1, id_aa64pfr1_el1, id_aa64dfr0_el1, id_aa64dfr1_el1, id_aa64isar0_el1,
  id_aa64isar1_el1, id_aa64isar2_el1, id_aa64isar3_el1, id_aa64zfr0_el1, id_aa64mmfr0_el1,
  id_aa64mmfr1_el1, id_aa64mmfr2_el1, id_aa64mmfr3_el1, id_aa64mmfr4_el1, id_aa64pfr2_el1,
  id_aa64smfr0_el1, reserved_el1, mdrar_el1, mair_el1, contextidr_el1, osdlr_el1, oslsr_el1,
  oseccr_el1, dbgclaimset_el1, dbgclaimclr_el1, dbgauthstatus_el1, dbgprcr_el1, vbar_el1, elr_el1,
  spsr_el1, current_el, esr_el1, far_el1, mdscr_el1, tpidr_el0, tpidrro_el0, tpidr_el1, tpidr_el2,
  sp_el0, sp_el1, par_el1, daif, spsel, ctr_el0, dczid_el0, cntfrq_el0, cntpct_el0, cntvct_el0,
  cntkctl_el1, fpcr, fpsr, pan, nzcv, oslar_el1,
}
use aarchvm.System.Write.{write_bank, write_register}
use aarchvm.System.Read.{limit}
use aarchvm.System.Exception.{
  reset, handler_pstate, exception_enter_irq, exception_enter_sync, illegal_exception_return,
  exception_return, fp_or_fpsr,
}
use aarchvm.System.Return.{IsMode, IsConsistent}
use aarchvm.System.Step.{
  Step, write_step, set_spsel_step, set_nzcv_step, daif_set_step, daif_clr_step, fp_or_fpsr_step,
  software_step_step, irq_step, sync_step, legal_return_step, illegal_return_step, Reachable,
  reset_state, then_step,
}

-- The mode is one of the guest's, with its stack, and four registers hold only bits that they have.
unfoldable pub IsKept : SystemRegisters → Type 0
IsKept s =
    IsConsistent s
    × (sanitize_spsr_el1 s.spsr_el1 ≡ s.spsr_el1)
    × (sanitize_fpcr s.fpcr ≡ s.fpcr)
    × (sanitize_fpsr s.fpsr ≡ s.fpsr)
    × (sanitize_dbgprcr_el1 s.dbgprcr_el1 ≡ s.dbgprcr_el1)

-- A predicate of the result, where there is one.
unfoldable pub Holds : Option SystemRegisters → Type 0
Holds none = Unit
Holds (some s) = IsKept s

Holds-some : (o : Option SystemRegisters) (s : SystemRegisters) → Holds o → o ≡ some s → IsKept s
unfolding Holds IsKept
Holds-some o s h e = subst Holds e h

Holds-if : (b : Bool) (s : SystemRegisters) → IsKept s → Holds (if b then none else some s)
unfolding Holds IsKept
Holds-if true s k = tt
Holds-if false s k = k

set_spsel-IsKept :
    (value : ℕ) (s : SystemRegisters) → IsKept s → el s.pstate ≡ 1 → IsKept (set_spsel value s)
unfolding IsKept IsConsistent IsMode set_spsel
set_spsel-IsKept value s k l = (ground (arith, k, l), k.1, k.2, k.3, k.4)

write_bank-IsKept :
    (b : Bank) (i value : ℕ) (s : SystemRegisters) → IsKept s → IsKept (write_bank b i value s)
unfolding write_bank IsKept IsConsistent
write_bank-IsKept dbgbvr i value s k = k
write_bank-IsKept dbgbcr i value s k = k
write_bank-IsKept dbgwvr i value s k = k
write_bank-IsKept dbgwcr i value s k = k

write_register-Holds :
    (r : Register) (value : ℕ) (s : SystemRegisters)
    → IsKept s
    → (el s.pstate ≡ 1) ⊎ (r ≢ spsel)
    → Holds (write_register r value s)
unfolding Holds IsKept IsConsistent write_register put_nzcv put_daif sanitize_spsr_el1 sanitize_fpcr
    sanitize_fpsr sanitize_dbgprcr_el1
write_register-Holds (debug b i) value s k p =
    Holds-if (leb (limit b s) i) (write_bank b i value s) (write_bank-IsKept b i value s k)
write_register-Holds midr_el1 value s k p = tt
write_register-Holds mpidr_el1 value s k p = tt
write_register-Holds revidr_el1 value s k p = tt
write_register-Holds ccsidr_el1 value s k p = tt
write_register-Holds sctlr_el1 value s k p = k
write_register-Holds cpacr_el1 value s k p = k
write_register-Holds csselr_el1 value s k p = k
write_register-Holds ttbr0_el1 value s k p = k
write_register-Holds ttbr1_el1 value s k p = k
write_register-Holds tcr_el1 value s k p = k
write_register-Holds clidr_el1 value s k p = tt
write_register-Holds id_aa64pfr0_el1 value s k p = tt
write_register-Holds id_aa64pfr1_el1 value s k p = tt
write_register-Holds id_aa64dfr0_el1 value s k p = tt
write_register-Holds id_aa64dfr1_el1 value s k p = tt
write_register-Holds id_aa64isar0_el1 value s k p = tt
write_register-Holds id_aa64isar1_el1 value s k p = tt
write_register-Holds id_aa64isar2_el1 value s k p = tt
write_register-Holds id_aa64isar3_el1 value s k p = tt
write_register-Holds id_aa64zfr0_el1 value s k p = tt
write_register-Holds id_aa64mmfr0_el1 value s k p = tt
write_register-Holds id_aa64mmfr1_el1 value s k p = tt
write_register-Holds id_aa64mmfr2_el1 value s k p = tt
write_register-Holds id_aa64mmfr3_el1 value s k p = tt
write_register-Holds id_aa64mmfr4_el1 value s k p = tt
write_register-Holds id_aa64pfr2_el1 value s k p = tt
write_register-Holds id_aa64smfr0_el1 value s k p = tt
write_register-Holds reserved_el1 value s k p = tt
write_register-Holds mdrar_el1 value s k p = tt
write_register-Holds mair_el1 value s k p = k
write_register-Holds contextidr_el1 value s k p = k
write_register-Holds osdlr_el1 value s k p = k
write_register-Holds oslsr_el1 value s k p = tt
write_register-Holds oseccr_el1 value s k p = k
write_register-Holds dbgclaimset_el1 value s k p = k
write_register-Holds dbgclaimclr_el1 value s k p = k
write_register-Holds dbgauthstatus_el1 value s k p = tt
write_register-Holds dbgprcr_el1 value s k p = (k.0, k.1, k.2, k.3, bit_and_again value 1)
write_register-Holds vbar_el1 value s k p = k
write_register-Holds elr_el1 value s k p = k
write_register-Holds spsr_el1 value s k p = (k.0, bit_and_again value 0xF07003DF, k.2, k.3, k.4)
write_register-Holds current_el value s k p = tt
write_register-Holds esr_el1 value s k p = k
write_register-Holds far_el1 value s k p = k
write_register-Holds mdscr_el1 value s k p = k
write_register-Holds tpidr_el0 value s k p = k
write_register-Holds tpidrro_el0 value s k p = k
write_register-Holds tpidr_el1 value s k p = k
write_register-Holds tpidr_el2 value s k p = k
write_register-Holds sp_el0 value s k p =
    Holds-if (el s.pstate == 0 || uses_sp_el0 s.pstate) (record s { sp_el0 = value }) k
write_register-Holds sp_el1 value s k p =
    Holds-if (leb (el s.pstate) 1) (record s { sp_el1 = value }) k
write_register-Holds par_el1 value s k p = k
write_register-Holds daif value s k p = k
write_register-Holds spsel value s k p = elim p [
  | inl l ↦ set_spsel-IsKept value s k l
  | inr n ↦ absurd (n refl)
]
write_register-Holds ctr_el0 value s k p = tt
write_register-Holds dczid_el0 value s k p = tt
write_register-Holds cntfrq_el0 value s k p = tt
write_register-Holds cntpct_el0 value s k p = tt
write_register-Holds cntvct_el0 value s k p = tt
write_register-Holds cntkctl_el1 value s k p = k
write_register-Holds fpcr value s k p = (k.0, k.1, bit_and_again value 0x7F70000, k.3, k.4)
write_register-Holds fpsr value s k p = (k.0, k.1, k.2, bit_and_again value 0x800009F, k.4)
write_register-Holds pan value s k p = k
write_register-Holds nzcv value s k p = k
write_register-Holds oslar_el1 value s k p = k

handler-IsMode : IsMode 5
unfolding IsMode
handler-IsMode = inr (inr refl)

exception_enter_irq-IsKept :
    (return_pc saved : ℕ) (s : SystemRegisters)
    → IsKept s
    → IsKept (exception_enter_irq return_pc saved s)
unfolding IsKept IsConsistent exception_enter_irq handler_pstate sanitize_spsr_el1
exception_enter_irq-IsKept return_pc saved s k =
    ((handler-IsMode, refl), bit_and_again saved 0xF07003DF, k.2, k.3, k.4)

exception_enter_sync-IsKept :
    (return_pc saved ec iss : ℕ) (far_valid : Bool) (far : ℕ) (s : SystemRegisters)
    → IsKept s
    → IsKept (exception_enter_sync return_pc saved ec iss far_valid far s)
unfolding IsKept IsConsistent exception_enter_sync handler_pstate sanitize_spsr_el1
exception_enter_sync-IsKept return_pc saved ec iss far_valid far s k =
    ((handler-IsMode, refl), bit_and_again saved 0xF07003DF, k.2, k.3, k.4)

legal-IsMode : (s : SystemRegisters) → illegal_exception_return s ≡ false → IsMode (s.spsr_el1 % 16)
unfolding IsMode illegal_exception_return
legal-IsMode s h = ground (arith, h)

legal_return-IsKept :
    (s : SystemRegisters)
    → IsKept s
    → illegal_exception_return s ≡ false
    → IsKept ((exception_return false s).1)
unfolding IsKept IsConsistent exception_return set_pstate_bits put_pstate_bits put_nzcv put_daif
legal_return-IsKept s k h = ((legal-IsMode s h, refl), k.1, k.2, k.3, k.4)

illegal_return-IsKept : (s : SystemRegisters) → IsKept s → IsKept ((exception_return true s).1)
unfolding IsKept IsConsistent exception_return put_nzcv put_daif
illegal_return-IsKept s k = k

reset-IsKept : (s : SystemRegisters) → IsKept (reset s)
unfolding IsKept IsConsistent IsMode reset sanitize_spsr_el1 sanitize_fpcr sanitize_fpsr
    sanitize_dbgprcr_el1
reset-IsKept s = ((inr (inr refl), refl), refl, refl, refl, refl)

Step-IsKept : {s s' : SystemRegisters} → Step s s' → IsKept s → IsKept s'
unfolding IsKept IsConsistent put_nzcv daif_set daif_clr sanitize_fpcr sanitize_fpsr fp_or_fpsr
Step-IsKept (write_step s s' r value p e) k =
    Holds-some (write_register r value s) s' (write_register-Holds r value s k p) e
Step-IsKept (set_spsel_step s value l) k = set_spsel-IsKept value s k l
Step-IsKept (set_nzcv_step s value) k = k
Step-IsKept (daif_set_step s imm4) k = k
Step-IsKept (daif_clr_step s imm4) k = k
Step-IsKept (fp_or_fpsr_step s bits) k =
    (k.0, k.1, k.2, bit_and_again (bit_or s.fpsr bits) 0x800009F, k.4)
Step-IsKept (software_step_step s value) k = k
Step-IsKept (irq_step s return_pc saved) k = exception_enter_irq-IsKept return_pc saved s k
Step-IsKept (sync_step s return_pc saved ec iss far_valid far) k =
    exception_enter_sync-IsKept return_pc saved ec iss far_valid far s k
Step-IsKept (legal_return_step s h) k = legal_return-IsKept s k h
Step-IsKept (illegal_return_step s) k = illegal_return-IsKept s k

-- After a reset and any steps, the processor is in a mode of the guest with the stack that goes with
-- it, and the saved state, the two floating-point registers and the power register hold only bits
-- that they have.
pub Reachable-IsKept : {s : SystemRegisters} → Reachable s → IsKept s
Reachable-IsKept (reset_state s) = reset-IsKept s
Reachable-IsKept (then_step before step) = Step-IsKept step (Reachable-IsKept before)
