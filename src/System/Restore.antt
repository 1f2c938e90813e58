-- ===== src/System/Restore.antt =====
-- src/system_registers.cpp: a register saved by the guest and written again later.
use mathlib.Core.Path.{subst}
use aarchvm.Base.{
  ℕ, ◌≡◌, refl, ◌∙◌, sym, ap, Bool, true, false, ◌||◌, leb, ◌==◌, if◌then◌else◌, arith, Option,
  none, some, update_self,
}
use aarchvm.System.{SystemRegisters}
use aarchvm.System.Sanitize.{clear, with_ones}
use aarchvm.System.State.{el, uses_sp_el0, set_spsel}
use aarchvm.System.Register.{
  Bank, dbgbvr, dbgbcr, dbgwvr, dbgwcr, Register, register_of, debug, midr_el1, mpidr_el1,
  revidr_el1, ccsidr_el1, sctlr_el1, cpacr_el1, csselr_el1, ttbr0_el1, ttbr1_el1, tcr_el1,
  clidr_el1, id_aa64pfr0_el1, id_aa64pfr1_el1, id_aa64dfr0_el1, id_aa64dfr1_el1, id_aa64isar0_el1,
  id_aa64isar1_el1, id_aa64isar2_el1, id_aa64isar3_el1, id_aa64zfr0_el1, id_aa64mmfr0_el1,
  id_aa64mmfr1_el1, id_aa64mmfr2_el1, id_aa64mmfr3_el1, id_aa64mmfr4_el1, id_aa64pfr2_el1,
  id_aa64smfr0_el1, reserved_el1, mdrar_el1, mair_el1, contextidr_el1, osdlr_el1, oslsr_el1,
  oseccr_el1, dbgclaimset_el1, dbgclaimclr_el1, dbgauthstatus_el1, dbgprcr_el1, vbar_el1, elr_el1,
  spsr_el1, current_el, esr_el1, far_el1, mdscr_el1, tpidr_el0, tpidrro_el0, tpidr_el1, tpidr_el2,
  sp_el0, sp_el1, par_el1, daif, spsel, ctr_el0, dczid_el0, cntfrq_el0, cntpct_el0, cntvct_el0,
  cntkctl_el1, fpcr, fpsr, pan, nzcv, oslar_el1,
}
use aarchvm.System.Read.{
  limit, bank_value, read_register, read, breakpoint_resource_count, watchpoint_resource_count,
}
use aarchvm.System.Write.{write_bank, write_register, write}
use aarchvm.System.Step.{Reachable}
use aarchvm.System.Again.{
  IsSameModel, with_ones_again, sctlr_again, tcr_again, ttbr_again, cpacr_el1_again,
  csselr_el1_again, vbar_el1_again, contextidr_el1_again, cntkctl_el1_again, nzcv_again, daif_again,
  pan_again, spsel_again,
}
use aarchvm.System.Kept.{IsKept, Reachable-IsKept}

-- The registers whose write does not depend on their old value: not the claim tags, nor what the lock
-- of the debug registers protects.
unfoldable pub is_plain : Register → Bool
is_plain oseccr_el1 = false
is_plain dbgclaimset_el1 = false
is_plain dbgclaimclr_el1 = false
is_plain mdscr_el1 = false
is_plain r = true

-- What the register reads after the write of `v` to it, if the write is accepted, and the same for
-- the value read, if there is one.
unfoldable pub Reads : Register → ℕ → Option SystemRegisters → Type 0
Reads r v none = Unit
Reads r v (some t) = read_register r t ≡ some v

unfoldable pub Restored : Register → SystemRegisters → Option ℕ → Type 0
Restored r t none = Unit
Restored r t (some v) = Reads r v (write_register r v t)

Restored-if :
    (r : Register) (t : SystemRegisters) (b : Bool) (v : ℕ)
    → Reads r v (write_register r v t)
    → Restored r t (if b then none else some v)
unfolding Restored
Restored-if r t true v h = tt
Restored-if r t false v h = h

-- A condition that refuses both the write and the read.
refused_both :
    (r : Register) (v : ℕ) (b : Bool) (t : SystemRegisters)
    → read_register r t ≡ (if b then none else some v)
    → Reads r v (if b then none else some t)
unfolding Reads
refused_both r v true t h = tt
refused_both r v false t h = h

restored_sp_el0 : (v : ℕ) (t : SystemRegisters) → Reads sp_el0 v (write_register sp_el0 v t)
unfolding write_register read_register
restored_sp_el0 v t =
    refused_both sp_el0 v (el t.pstate == 0 || uses_sp_el0 t.pstate) (record t { sp_el0 = v }) refl

restored_sp_el1 : (v : ℕ) (t : SystemRegisters) → Reads sp_el1 v (write_register sp_el1 v t)
unfolding write_register read_register
restored_sp_el1 v t = refused_both sp_el1 v (leb (el t.pstate) 1) (record t { sp_el1 = v }) refl

bank_again :
    (b : Bank) (i : ℕ) (s t : SystemRegisters)
    → bank_value b i (write_bank b i (bank_value b i s) t) ≡ bank_value b i s
unfolding bank_value write_bank with_ones clear
bank_again dbgbvr i s t = update_self t.dbgbvr_el1 i (s.dbgbvr_el1 i)
bank_again dbgbcr i s t =
    let v = with_ones (s.dbgbcr_el1 i) 0x1E0 in
    ap (λ w. with_ones w 0x1E0) (update_self t.dbgbcr_el1 i v) ∙ with_ones_again (s.dbgbcr_el1 i)
bank_again dbgwvr i s t = update_self t.dbgwvr_el1 i (s.dbgwvr_el1 i)
bank_again dbgwcr i s t = update_self t.dbgwcr_el1 i (s.dbgwcr_el1 i)

bank_limit : (b : Bank) (i v : ℕ) (t : SystemRegisters) → limit b (write_bank b i v t) ≡ limit b t
unfolding limit write_bank breakpoint_resource_count watchpoint_resource_count
bank_limit dbgbvr i v t = refl
bank_limit dbgbcr i v t = refl
bank_limit dbgwvr i v t = refl
bank_limit dbgwcr i v t = refl

restored_bank :
    (b : Bank) (i : ℕ) (s t : SystemRegisters)
    → Reads (debug b i) (bank_value b i s) (write_register (debug b i) (bank_value b i s) t)
unfolding write_register read_register
restored_bank b i s t =
    refused_both (debug b i) (bank_value b i s) (leb (limit b t) i)
      (write_bank b i (bank_value b i s) t)
      (rw (bank_limit b i (bank_value b i s) t, bank_again b i s t) refl)

Restored-read_register :
    (r : Register) (s t : SystemRegisters)
    → is_plain r ≡ true
    → IsSameModel t s
    → IsKept s
    → Restored r t (read_register r s)
unfolding Restored Reads read_register write_register is_plain IsKept set_spsel
Restored-read_register (debug b i) s t p m k =
    Restored-if (debug b i) t (leb (limit b s) i) (bank_value b i s) (restored_bank b i s t)
Restored-read_register midr_el1 s t p m k = tt
Restored-read_register mpidr_el1 s t p m k = tt
Restored-read_register revidr_el1 s t p m k = tt
Restored-read_register ccsidr_el1 s t p m k = tt
Restored-read_register sctlr_el1 s t p m k = ap some (sctlr_again s t m)
Restored-read_register cpacr_el1 s t p m k = ap some (cpacr_el1_again s.cpacr_el1)
Restored-read_register csselr_el1 s t p m k = ap some (csselr_el1_again s.csselr_el1)
Restored-read_register ttbr0_el1 s t p m k = ap some (ttbr_again s.ttbr0_el1 s t m)
Restored-read_register ttbr1_el1 s t p m k = ap some (ttbr_again s.ttbr1_el1 s t m)
Restored-read_register tcr_el1 s t p m k = ap some (tcr_again s t m)
Restored-read_register clidr_el1 s t p m k = tt
Restored-read_register id_aa64pfr0_el1 s t p m k = tt
Restored-read_register id_aa64pfr1_el1 s t p m k = tt
Restored-read_register id_aa64dfr0_el1 s t p m k = tt
Restored-read_register id_aa64dfr1_el1 s t p m k = tt
Restored-read_register id_aa64isar0_el1 s t p m k = tt
Restored-read_register id_aa64isar1_el1 s t p m k = tt
Restored-read_register id_aa64isar2_el1 s t p m k = tt
Restored-read_register id_aa64isar3_el1 s t p m k = tt
Restored-read_register id_aa64zfr0_el1 s t p m k = tt
Restored-read_register id_aa64mmfr0_el1 s t p m k = tt
Restored-read_register id_aa64mmfr1_el1 s t p m k = tt
Restored-read_register id_aa64mmfr2_el1 s t p m k = tt
Restored-read_register id_aa64mmfr3_el1 s t p m k = tt
Restored-read_register id_aa64mmfr4_el1 s t p m k = tt
Restored-read_register id_aa64pfr2_el1 s t p m k = tt
Restored-read_register id_aa64smfr0_el1 s t p m k = tt
Restored-read_register reserved_el1 s t p m k = tt
Restored-read_register mdrar_el1 s t p m k = tt
Restored-read_register mair_el1 s t p m k = refl
Restored-read_register contextidr_el1 s t p m k = ap some (contextidr_el1_again s.contextidr_el1)
Restored-read_register osdlr_el1 s t p m k = refl
Restored-read_register oslsr_el1 s t p m k = tt
Restored-read_register oseccr_el1 s t p m k = absurd (ground (arith, p))
Restored-read_register dbgclaimset_el1 s t p m k = absurd (ground (arith, p))
Restored-read_register dbgclaimclr_el1 s t p m k = absurd (ground (arith, p))
Restored-read_register dbgauthstatus_el1 s t p m k = tt
Restored-read_register dbgprcr_el1 s t p m k = ap some (k.4)
Restored-read_register vbar_el1 s t p m k = ap some (vbar_el1_again s.vbar_el1)
Restored-read_register elr_el1 s t p m k = refl
Restored-read_register spsr_el1 s t p m k = ap some (k.1)
Restored-read_register current_el s t p m k = tt
Restored-read_register esr_el1 s t p m k = refl
Restored-read_register far_el1 s t p m k = refl
Restored-read_register mdscr_el1 s t p m k = absurd (ground (arith, p))
Restored-read_register tpidr_el0 s t p m k = refl
Restored-read_register tpidrro_el0 s t p m k = refl
Restored-read_register tpidr_el1 s t p m k = refl
Restored-read_register tpidr_el2 s t p m k = refl
Restored-read_register sp_el0 s t p m k =
    Restored-if sp_el0 t (el s.pstate == 0 || uses_sp_el0 s.pstate) s.sp_el0
      (restored_sp_el0 s.sp_el0 t)
Restored-read_register sp_el1 s t p m k =
    Restored-if sp_el1 t (leb (el s.pstate) 1) s.sp_el1 (restored_sp_el1 s.sp_el1 t)
Restored-read_register par_el1 s t p m k = refl
Restored-read_register daif s t p m k = ap some (daif_again s.pstate t.pstate)
Restored-read_register spsel s t p m k = ap some (spsel_again s (k.0))
Restored-read_register ctr_el0 s t p m k = tt
Restored-read_register dczid_el0 s t p m k = tt
Restored-read_register cntfrq_el0 s t p m k = tt
Restored-read_register cntpct_el0 s t p m k = tt
Restored-read_register cntvct_el0 s t p m k = tt
Restored-read_register cntkctl_el1 s t p m k = ap some (cntkctl_el1_again s.cntkctl_el1)
Restored-read_register fpcr s t p m k = ap some (k.2)
Restored-read_register fpsr s t p m k = ap some (k.3)
Restored-read_register pan s t p m k = ap some (pan_again s.pstate.pan)
Restored-read_register nzcv s t p m k = ap some (nzcv_again s.pstate t.pstate)
Restored-read_register oslar_el1 s t p m k = tt

write_register-read_register :
    (r : Register) (v : ℕ) (s t t' : SystemRegisters)
    → is_plain r ≡ true
    → IsSameModel t s
    → IsKept s
    → read_register r s ≡ some v
    → write_register r v t ≡ some t'
    → read_register r t' ≡ some v
unfolding Restored Reads
write_register-read_register r v s t t' p m k hr hw =
    subst (Reads r v) hw (subst (Restored r t) hr (Restored-read_register r s t p m k))

-- What an instruction reads from a register and another writes to it later, on a processor of the
-- same model, is read there again, if the write is accepted: every register but the claim tags and
-- the two that the lock of the debug registers protects. The first processor is in a state reached
-- from a reset.
pub write-read :
    (op0 op1 crn crm op2 : ℕ) (r : Register) (v : ℕ) (s t t' : SystemRegisters)
    → register_of op0 op1 crn crm op2 ≡ some r
    → is_plain r ≡ true
    → IsSameModel t s
    → Reachable s
    → read op0 op1 crn crm op2 s ≡ some v
    → write op0 op1 crn crm op2 v t ≡ some t'
    → read op0 op1 crn crm op2 t' ≡ some v
unfolding read write
write-read op0 op1 crn crm op2 r v s t t' e p m k hr hw =
    rw (read, e)
      (write_register-read_register r v s t t' p m (Reachable-IsKept k)
        (sym (rw (read, e) refl) ∙ hr) (sym (rw (write, e) refl) ∙ hw))
