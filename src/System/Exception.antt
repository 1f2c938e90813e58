-- ===== src/System/Exception.antt =====
-- src/system_registers.cpp: exception entry and return, and when debug exceptions are taken.
use aarchvm.Base.{
  ℕ, ◌*◌, ◌/◌, ◌%◌, ◌^◌, bit_or, Bool, true, false, ◌&&◌, ◌||◌, not, ◌==◌, if◌then◌else◌, bit,
}
use aarchvm.System.{reset_values, PState, SystemRegisters}
use aarchvm.System.Sanitize.{sanitize_spsr_el1, sanitize_sctlr_el1, sanitize_fpsr}
use aarchvm.System.State.{el, with_pstate, put_nzcv, put_daif, set_pstate_bits}

unfoldable pub reset : SystemRegisters → SystemRegisters
reset s =
    let fresh = reset_values in
    record fresh {
      sctlr_el1 =
          sanitize_sctlr_el1 fresh.sctlr_el1 fresh.id_aa64mmfr0_el1 fresh.id_aa64mmfr1_el1
            fresh.id_aa64mmfr2_el1 fresh.id_aa64pfr0_el1 fresh.id_aa64pfr1_el1
            fresh.id_aa64isar1_el1 fresh.id_aa64isar2_el1;
    }

unfoldable pub fp_or_fpsr : ℕ → SystemRegisters → SystemRegisters
fp_or_fpsr bits s = record s { fpsr = sanitize_fpsr (bit_or s.fpsr bits) }

unfoldable pub software_step_enabled : SystemRegisters → Bool
software_step_enabled s = bit s.mdscr_el1 0

unfoldable pub os_lock_active : SystemRegisters → Bool
os_lock_active s = bit s.oslar_el1 0

unfoldable pub double_lock_active : SystemRegisters → Bool
double_lock_active s = bit s.osdlr_el1 0 && not (bit s.dbgprcr_el1 0)

unfoldable pub monitor_debug_enabled : SystemRegisters → Bool
monitor_debug_enabled s = bit s.mdscr_el1 15

unfoldable pub kernel_debug_enabled : SystemRegisters → Bool
kernel_debug_enabled s = bit s.mdscr_el1 13

unfoldable pub debug_exceptions_enabled_from_el : ℕ → Bool → ℕ → Bool
debug_exceptions_enabled_from_el from_el d_masked mdscr_el1 =
    if from_el == 0 then true else if from_el == 1 then bit mdscr_el1 13 && not d_masked else false

unfoldable pub debug_exceptions_enabled_current : SystemRegisters → Bool
debug_exceptions_enabled_current s =
    debug_exceptions_enabled_from_el (el s.pstate) s.pstate.d s.mdscr_el1

unfoldable pub breakpoint_watchpoint_enabled_current : SystemRegisters → Bool
breakpoint_watchpoint_enabled_current s =
    monitor_debug_enabled s
    && (debug_exceptions_enabled_current s
        && (not (os_lock_active s) && not (double_lock_active s)))

unfoldable pub software_step_active_pending : SystemRegisters → Bool
software_step_active_pending s =
    software_step_enabled s
    && (debug_exceptions_enabled_current s
        && (not (os_lock_active s) && (not (double_lock_active s) && not s.pstate.ss)))

unfoldable pub software_step_active_not_pending : SystemRegisters → Bool
software_step_active_not_pending s =
    software_step_enabled s
    && (debug_exceptions_enabled_current s
        && (not (os_lock_active s) && (not (double_lock_active s) && s.pstate.ss)))

-- The state at the handler's first instruction.
unfoldable pub handler_pstate : SystemRegisters → PState
handler_pstate s = record s.pstate {
  mode = 5;
  ss = false;
  il = false;
  d = true;
  a = true;
  i = true;
  f = true;
  pan = not (bit s.sctlr_el1 23) || s.pstate.pan;
}

unfoldable pub exception_enter_irq : ℕ → ℕ → SystemRegisters → SystemRegisters
exception_enter_irq return_pc saved s = record s {
  elr_el1 = return_pc;
  spsr_el1 = sanitize_spsr_el1 saved;
  esr_el1 = 0;
  spsel = 1;
  pstate = handler_pstate s;
}

unfoldable pub syndrome : ℕ → ℕ → ℕ
syndrome ec iss = bit_or (bit_or (ec % 2 ^ 6 * 2 ^ 26) (2 ^ 25)) (iss % 2 ^ 25)

unfoldable pub exception_enter_sync : ℕ → ℕ → ℕ → ℕ → Bool → ℕ → SystemRegisters → SystemRegisters
exception_enter_sync return_pc saved ec iss far_valid far s = record s {
  elr_el1 = return_pc;
  spsr_el1 = sanitize_spsr_el1 saved;
  esr_el1 = syndrome ec iss;
  far_el1 = if far_valid then far else 0;
  spsel = 1;
  pstate = handler_pstate s;
}

unfoldable pub illegal_exception_return : SystemRegisters → Bool
illegal_exception_return s =
    let mode = s.spsr_el1 % 16 in
    if bit s.spsr_el1 4 then true else not (mode == 0 || (mode == 4 || mode == 5))

-- Whether the return restores the state of single stepping.
unfoldable pub restore_software_step : Bool → SystemRegisters → Bool
restore_software_step illegal s =
    let dest = if illegal then el s.pstate else s.spsr_el1 / 4 % 4 in
    software_step_enabled s
    && (not (debug_exceptions_enabled_current s)
        && (debug_exceptions_enabled_from_el dest (bit s.spsr_el1 9) s.mdscr_el1
            && bit s.spsr_el1 21))

-- The address returned to, and the registers then.
unfoldable pub exception_return : Bool → SystemRegisters → ℕ × SystemRegisters
exception_return illegal s =
    let step = restore_software_step illegal s in
    let kept = put_daif s.spsr_el1 (put_nzcv s.spsr_el1 s.pstate) in
    let legal = set_pstate_bits s.spsr_el1 s in
    if illegal
    then (s.elr_el1, with_pstate s (record kept { pan = bit s.spsr_el1 22; ss = step; il = true }))
    else (s.elr_el1, with_pstate legal (record legal.pstate { ss = step }))
