-- ===== src/System/Return.antt =====
-- src/system_registers.cpp: a return from the handler of an exception.
use aarchvm.Base.{
  ℕ, ◌/◌, ◌%◌, ◌<◌, ◌≡◌, refl, ◌∙◌, sym, ap, Bool, true, false, ◌&&◌, ◌==◌, bit, if◌then◌else◌,
  arith, ◌⊎◌,
}
use aarchvm.System.{PState, SystemRegisters}
use aarchvm.System.Sanitize.{sanitize_spsr_el1}
use aarchvm.System.State.{el, pstate_bits, put_pstate_bits, set_pstate_bits}
use aarchvm.System.Exception.{
  software_step_enabled, debug_exceptions_enabled_current, debug_exceptions_enabled_from_el,
  handler_pstate, exception_enter_sync, exception_enter_irq, illegal_exception_return,
  restore_software_step, exception_return,
}
use aarchvm.System.Flags.{put_pstate_bits-pstate_bits, saved_mode, saved_d, saved_ss, saved_aarch64}

-- The modes that a guest runs in: level 0, and level 1 with either stack.
unfoldable pub IsMode : ℕ → Type 0
IsMode mode = (mode ≡ 0) ⊎ ((mode ≡ 4) ⊎ (mode ≡ 5))

-- A mode of the guest, and the selected stack that goes with it.
unfoldable pub IsConsistent : SystemRegisters → Type 0
IsConsistent s =
    IsMode s.pstate.mode × (s.spsel ≡ (if el s.pstate == 1 then s.pstate.mode % 2 else 0))

-- What single stepping becomes on the way to a handler and back.
unfoldable pub stepped : SystemRegisters → PState
stepped s = record s.pstate {
  ss = software_step_enabled s && (debug_exceptions_enabled_current s && s.pstate.ss);
}

module _ (p : PState) (t : SystemRegisters) (mode : IsMode p.mode)
    (e : t.spsr_el1 ≡ sanitize_spsr_el1 (pstate_bits p)) where
  mode_bound : p.mode < 16
  unfolding IsMode
  mode_bound = ground (arith, mode)

  pub legal_saved : illegal_exception_return t ≡ false
  unfolding illegal_exception_return IsMode
  legal_saved =
      rw (illegal_exception_return, e, saved_aarch64 p mode_bound, saved_mode p mode_bound)
        (ground (arith, mode))

  restored_step :
      t.pstate.d ≡ true
      → el t.pstate ≡ 1
      → restore_software_step false t ≡ (
          software_step_enabled t
          && (debug_exceptions_enabled_from_el (el p) p.d t.mdscr_el1 && p.ss))
  unfolding restore_software_step debug_exceptions_enabled_current debug_exceptions_enabled_from_el
  restored_step d l =
      let level : t.spsr_el1 / 4 % 4 ≡ p.mode / 4 % 4 =
        omega (arith, mode_bound, e, saved_mode p mode_bound) in
      ground
        (arith, d, l, level, ap (λ v. bit v 9) e ∙ saved_d p, ap (λ v. bit v 21) e ∙ saved_ss p)

  returned_pstate :
      (exception_return false t).1.pstate ≡ record p { ss = restore_software_step false t }
  unfolding exception_return set_pstate_bits
  returned_pstate =
      ap {A = PState} {B = PState} (λ q. record q { ss = restore_software_step false t })
        (ap (λ v. put_pstate_bits v t.pstate) e ∙ put_pstate_bits-pstate_bits p t.pstate mode_bound)

  pub returned_spsel : (exception_return false t).1.spsel ≡ (if el p == 1 then p.mode % 2 else 0)
  unfolding exception_return set_pstate_bits
  returned_spsel =
      ap (λ q. if el q == 1 then q.mode % 2 else 0)
        (ap (λ v. put_pstate_bits v t.pstate) e ∙ put_pstate_bits-pstate_bits p t.pstate mode_bound)

  pub returned_stepped :
      t.pstate.d ≡ true
      → el t.pstate ≡ 1
      → (exception_return false t).1.pstate ≡ record p {
        ss =
            software_step_enabled t
            && (debug_exceptions_enabled_from_el (el p) p.d t.mdscr_el1 && p.ss);
      }
  returned_stepped d l =
      returned_pstate ∙ ap {A = Bool} {B = PState} (λ b. record p { ss = b }) (restored_step d l)

-- A synchronous exception from a mode of the guest, and the handler's return at once: the return is
-- legal, goes to the address saved, selects the same stack and restores the processor state, where
-- single stepping stays on only if it is enabled and debug exceptions are. The saved bits are those
-- of the state.
pub exception_enter_sync-exception_return :
    (return_pc ec iss : ℕ) (far_valid : Bool) (far : ℕ) (s : SystemRegisters)
    → IsConsistent s
    → let entered = exception_enter_sync return_pc (pstate_bits s.pstate) ec iss far_valid far s in
      (illegal_exception_return entered ≡ false)
      × ((exception_return false entered).0 ≡ return_pc)
      × ((exception_return false entered).1.spsel ≡ s.spsel)
      × ((exception_return false entered).1.pstate ≡ stepped s)
unfolding IsConsistent stepped exception_enter_sync handler_pstate software_step_enabled
    debug_exceptions_enabled_current exception_return
exception_enter_sync-exception_return return_pc ec iss far_valid far s c =
    let t = exception_enter_sync return_pc (pstate_bits s.pstate) ec iss far_valid far s in
    (
      legal_saved s.pstate t (c.0) refl,
      refl,
      returned_spsel s.pstate t (c.0) refl ∙ sym (c.1),
      returned_stepped s.pstate t (c.0) refl refl refl,
    )

-- The same for an interrupt.
pub exception_enter_irq-exception_return :
    (return_pc : ℕ) (s : SystemRegisters)
    → IsConsistent s
    → let entered = exception_enter_irq return_pc (pstate_bits s.pstate) s in
      (illegal_exception_return entered ≡ false)
      × ((exception_return false entered).0 ≡ return_pc)
      × ((exception_return false entered).1.spsel ≡ s.spsel)
      × ((exception_return false entered).1.pstate ≡ stepped s)
unfolding IsConsistent stepped exception_enter_irq handler_pstate software_step_enabled
    debug_exceptions_enabled_current exception_return
exception_enter_irq-exception_return return_pc s c =
    let t = exception_enter_irq return_pc (pstate_bits s.pstate) s in
    (
      legal_saved s.pstate t (c.0) refl,
      refl,
      returned_spsel s.pstate t (c.0) refl ∙ sym (c.1),
      returned_stepped s.pstate t (c.0) refl refl refl,
    )
