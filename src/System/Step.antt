-- ===== src/System/Step.antt =====
-- src/system_registers.cpp: what a processor does to its registers, as steps. A write of the stack
-- selection comes only from level 1, where the processor allows it.
use aarchvm.Base.{ℕ, ◌≡◌, ◌≢◌, Bool, true, false, some, ◌⊎◌}
use aarchvm.System.{SystemRegisters}
use aarchvm.System.State.{el, with_pstate, set_nzcv, set_spsel, daif_set, daif_clr}
use aarchvm.System.Register.{Register, spsel}
use aarchvm.System.Write.{write_register}
use aarchvm.System.Exception.{
  reset, exception_enter_irq, exception_enter_sync, illegal_exception_return, exception_return,
  fp_or_fpsr,
}

pub data Step : SystemRegisters → SystemRegisters → Type 0 where
  write_step :
      (s s' : SystemRegisters) (r : Register) (value : ℕ)
      → (el s.pstate ≡ 1) ⊎ (r ≢ spsel)
      → write_register r value s ≡ some s'
      → Step s s'
  set_spsel_step : (s : SystemRegisters) (value : ℕ) → el s.pstate ≡ 1 → Step s (set_spsel value s)
  set_nzcv_step : (s : SystemRegisters) (value : ℕ) → Step s (set_nzcv value s)
  daif_set_step : (s : SystemRegisters) (imm4 : ℕ) → Step s (with_pstate s (daif_set imm4 s.pstate))
  daif_clr_step : (s : SystemRegisters) (imm4 : ℕ) → Step s (with_pstate s (daif_clr imm4 s.pstate))
  fp_or_fpsr_step : (s : SystemRegisters) (bits : ℕ) → Step s (fp_or_fpsr bits s)
  software_step_step :
      (s : SystemRegisters) (value : Bool) → Step s (with_pstate s (record s.pstate { ss = value }))
  irq_step :
      (s : SystemRegisters) (return_pc saved : ℕ) → Step s (exception_enter_irq return_pc saved s)
  sync_step :
      (s : SystemRegisters) (return_pc saved ec iss : ℕ) (far_valid : Bool) (far : ℕ)
      → Step s (exception_enter_sync return_pc saved ec iss far_valid far s)
  legal_return_step :
      (s : SystemRegisters)
      → illegal_exception_return s ≡ false
      → Step s ((exception_return false s).1)
  illegal_return_step : (s : SystemRegisters) → Step s ((exception_return true s).1)

-- The registers after a reset and any steps.
pub data Reachable : SystemRegisters → Type 0 where
  reset_state : (s : SystemRegisters) → Reachable (reset s)
  then_step : {s s' : SystemRegisters} → Reachable s → Step s s' → Reachable s'
