-- ===== src/Interrupt/Cycle.antt =====
-- src/cpu.cpp: an interrupt taken and left again.
use aarchvm.Base.{
  ℕ, ◌+◌, ◌-◌, ◌%◌, ◌≡◌, refl, ◌∙◌, sym, ap, ap₂, min, bit, ◌&&◌, Bool, true, false, leb, ◌==◌,
  Bool-cases, if◌then◌else◌, inl, inr, ◌⊎◌, update_self, arith,
}
use mathlib.Core.Path.{subst}
use aarchvm.Gic.{Gic}
use aarchvm.Gic.Lines.{eoi}
use aarchvm.Gic.Query.{acknowledge, priority}
use aarchvm.System.{PState, SystemRegisters}
use aarchvm.System.Sanitize.{sanitize_spsr_el1}
use aarchvm.System.State.{el, uses_sp_el0, set_pstate_bits, pstate_bits}
use aarchvm.System.Exception.{
  exception_enter_irq, handler_pstate, illegal_exception_return, exception_return,
  software_step_enabled, debug_exceptions_enabled_current, debug_exceptions_enabled_from_el,
}
use aarchvm.System.Return.{IsConsistent, stepped, legal_saved, returned_stepped}
use aarchvm.Interrupt.{
  Processor, exception_stack_capacity, run_at, save_current_sp_to_bank, load_current_sp_from_bank,
  push_frame, enter_irq, take_frame, taken, try_take_irq, leave_frame, return_registers, eret,
}
use aarchvm.Interrupt.Taken.{IsCurrent}

-- The second processor has what a return from the handler reads as the first has it: the depth of the
-- exceptions and the frame at the index, the priority mask, the stack pointers, the mode, the mask of
-- debug exceptions, the saved address and state, and the debug control.
unfoldable pub IsPreserved : ℕ → Processor → Processor → Type 0
IsPreserved index c r =
    (r.exception_depth ≡ c.exception_depth)
    × (r.exception_is_irq index ≡ c.exception_is_irq index)
    × (r.exception_prio_dropped index ≡ c.exception_prio_dropped index)
    × (r.exception_prev_prio index ≡ c.exception_prev_prio index)
    × (r.exception_intid index ≡ c.exception_intid index)
    × (r.icc_pmr_el1 ≡ c.icc_pmr_el1)
    × (r.sysregs.pstate.mode ≡ c.sysregs.pstate.mode)
    × (r.sysregs.pstate.d ≡ c.sysregs.pstate.d)
    × (r.sysregs.elr_el1 ≡ c.sysregs.elr_el1)
    × (r.sysregs.spsr_el1 ≡ c.sysregs.spsr_el1)
    × (r.sysregs.mdscr_el1 ≡ c.sysregs.mdscr_el1)
    × (r.sysregs.sp_el0 ≡ c.sysregs.sp_el0)
    × (r.sp ≡ c.sp)

-- A processor in the handler of an interrupt that the first one took, before the interrupt is ended.
Returnable : Processor → Processor → Type 0
Returnable c r =
    (r.exception_depth ≡ c.exception_depth + 1)
    × (r.exception_is_irq c.exception_depth ≡ true)
    × (r.exception_prio_dropped c.exception_depth ≡ false)
    × (r.exception_prev_prio c.exception_depth ≡ c.running_priority)
    × (r.icc_pmr_el1 ≡ c.icc_pmr_el1)
    × (r.sysregs.pstate.mode ≡ 5)
    × (r.sysregs.pstate.d ≡ true)
    × (r.sysregs.elr_el1 ≡ c.pc)
    × (r.sysregs.spsr_el1 ≡ sanitize_spsr_el1 (pstate_bits c.sysregs.pstate))
    × (r.sysregs.mdscr_el1 ≡ c.sysregs.mdscr_el1)
    × ((if uses_sp_el0 c.sysregs.pstate then r.sysregs.sp_el0 else r.sp) ≡ c.sp)

preserved-Returnable :
    (c r t : Processor) → Returnable c r → IsPreserved c.exception_depth r t → Returnable c t
unfolding Returnable IsPreserved
preserved-Returnable c r t e k = (
  k.0 ∙ e.0,
  k.1 ∙ e.1,
  k.2 ∙ e.2,
  k.3 ∙ e.3,
  k.5 ∙ e.4,
  k.6 ∙ e.5,
  k.7 ∙ e.6,
  k.8 ∙ e.7,
  k.9 ∙ e.8,
  k.10 ∙ e.9,
  ap₂ (λ a b. if uses_sp_el0 c.sysregs.pstate then a else b) (k.11) (k.12) ∙ e.10,
)

take_frame-Returnable : (intid prio : ℕ) (c : Processor) → Returnable c (take_frame intid prio c)
unfolding Returnable take_frame enter_irq exception_enter_irq handler_pstate run_at push_frame
    save_current_sp_to_bank load_current_sp_from_bank
take_frame-Returnable intid prio c = (
  refl,
  update_self c.exception_is_irq c.exception_depth true,
  update_self c.exception_prio_dropped c.exception_depth false,
  update_self c.exception_prev_prio c.exception_depth c.running_priority,
  refl,
  refl,
  refl,
  refl,
  refl,
  refl,
  (ground arith),
)

module _ (c r : Processor) (consistent : IsConsistent c.sysregs) (e : Returnable c r) where
  abbrev at_return : SystemRegisters
  at_return = (save_current_sp_to_bank r).sysregs

  return-legal : illegal_exception_return at_return ≡ false
  unfolding IsConsistent Returnable save_current_sp_to_bank
  return-legal = legal_saved c.sysregs.pstate at_return (consistent.0) (e.8)

  return-pstate : (exception_return false at_return).1.pstate ≡ stepped c.sysregs
  unfolding IsConsistent Returnable save_current_sp_to_bank stepped software_step_enabled
      debug_exceptions_enabled_current
  return-pstate =
      let p = c.sysregs.pstate in
      let level : el at_return.pstate ≡ 1 = ground (arith, e.5) in
      returned_stepped p at_return (consistent.0) (e.8) (e.6) level
      ∙ ap {A = ℕ} {B = PState}
          (λ m. record p {
            ss = bit m 0 && (debug_exceptions_enabled_from_el (el p) p.d m && p.ss);
          })
          (e.9)

  return_registers-legal :
      return_registers r
      ≡ load_current_sp_from_bank (record (save_current_sp_to_bank r) {
        pc = (exception_return false at_return).0;
        sysregs = (exception_return false at_return).1;
      })
  unfolding return_registers
  return_registers-legal = rw (return_registers, return-legal) refl

  return_registers-pc : (return_registers r).pc ≡ c.pc
  unfolding Returnable exception_return save_current_sp_to_bank load_current_sp_from_bank
  return_registers-pc = ap (λ x. x.pc) return_registers-legal ∙ e.7

  return_registers-pstate : (return_registers r).sysregs.pstate ≡ stepped c.sysregs
  unfolding load_current_sp_from_bank
  return_registers-pstate = ap (λ x. x.sysregs.pstate) return_registers-legal ∙ return-pstate

  -- The bank that the stack pointer returns from.
  banked_sp : PState → ℕ
  banked_sp p = if uses_sp_el0 p then at_return.sp_el0 else at_return.sp_el1

  banked_sp-stepped : banked_sp (stepped c.sysregs) ≡ c.sp
  unfolding banked_sp stepped Returnable save_current_sp_to_bank
  banked_sp-stepped = ground (arith, e.5, e.10)

  return_registers-sp : (return_registers r).sp ≡ c.sp
  unfolding banked_sp load_current_sp_from_bank save_current_sp_to_bank exception_return
      set_pstate_bits
  return_registers-sp =
      ap (λ x. x.sp) return_registers-legal ∙ ap banked_sp return-pstate ∙ banked_sp-stepped

leave_frame-pushed :
    (cpu depth intid prio : ℕ) (g : Gic) (r : Processor)
    → r.exception_depth ≡ depth + 1
    → r.exception_is_irq depth ≡ true
    → r.exception_prio_dropped depth ≡ false
    → r.exception_intid depth ≡ intid
    → r.exception_prev_prio depth ≡ prio
    → leave_frame cpu g r ≡ (eoi g cpu intid, run_at prio (record r { exception_depth = depth }))
unfolding leave_frame
leave_frame-pushed cpu depth intid prio g r hd hi hp hn hr =
    let index : r.exception_depth - 1 ≡ depth = omega (arith, hd) in
    let some_frame : (r.exception_depth == 0) ≡ false = ground (arith, hd) in
    rw (some_frame, index, hi, hp, hn, hr) refl

eret-frame :
    (cpu : ℕ) (g : Gic) (c r : Processor)
    → Returnable c r
    → eret cpu g r ≡ (
      eoi g cpu (r.exception_intid c.exception_depth),
      run_at c.running_priority
          (record (return_registers r) { exception_depth = c.exception_depth }),
    )
unfolding eret Returnable return_registers save_current_sp_to_bank load_current_sp_from_bank
eret-frame cpu g c r e =
    leave_frame-pushed cpu c.exception_depth (r.exception_intid c.exception_depth)
      c.running_priority g (return_registers r) (e.0) (e.1) (e.2) refl (e.3)

framed_pmr : (r : Processor) → (return_registers r).icc_pmr_el1 ≡ r.icc_pmr_el1
unfolding return_registers save_current_sp_to_bank load_current_sp_from_bank
framed_pmr r = refl

-- An answer of `try_take_irq`: the processor is in the handler, or no interrupt was taken.
Answers : Processor → Bool × Gic × Processor → Type 0
Answers c (ok, g', c') = ((ok ≡ true) × Returnable c c') ⊎ (ok ≡ false)

taken-Answers :
    (cpu : ℕ) (g : Gic) (c : Processor) (answer : Bool × ℕ × Gic) → Answers c (taken cpu g c answer)
unfolding taken Answers
taken-Answers cpu g c (false, intid, g') = inr refl
taken-Answers cpu g c (true, intid, g') =
    elim (Bool-cases (leb exception_stack_capacity c.exception_depth)) [
      | inl e ↦ rw e (inr refl)
      | inr e ↦
          let queried : Processor = record c { irq_query_negative_valid = false } in
          rw e (
            inl (
              refl,
              unfold Returnable in take_frame-Returnable intid (priority g' cpu intid) queried,
            ))
    ]

taken-Returnable :
    (g g' : Gic) (cpu : ℕ) (c c' : Processor)
    → try_take_irq cpu g c ≡ (true, g', c')
    → Returnable c c'
unfolding try_take_irq Answers
taken-Returnable g g' cpu c c' h =
    elim (subst (Answers c) h
      (taken-Answers cpu g c (acknowledge g cpu (c.irq_delivery_threshold % 256)))) [
        | inl a ↦ a.1
        | inr f ↦ absurd (ground (arith, f))
      ]

-- A processor takes an interrupt, and its handler runs and returns with what the return reads as
-- the handler found it (the depth and the frame of the exception, which is not yet ended, the
-- priority mask, the stack pointers, the mode, the mask of debug exceptions, the saved address and
-- state, and the debug control); all else of the processor and the whole controller may have
-- changed. Then the processor is at the instruction that was interrupted, with its stack pointer
-- and its state, where single stepping stays on only if it is enabled and debug exceptions are; the
-- depth of the exceptions, the running priority and the threshold are those from before, and the
-- interrupt is ended in the controller. Before, the mode is one of the guest's, with the selection
-- of the stack that goes with it, and the threshold is current.
pub try_take_irq-eret :
    (g g' g'' : Gic) (cpu : ℕ) (c c' c'' : Processor)
    → IsConsistent c.sysregs
    → IsCurrent c
    → try_take_irq cpu g c ≡ (true, g', c')
    → IsPreserved c.exception_depth c' c''
    → ((eret cpu g'' c'').0 ≡ eoi g'' cpu (c'.exception_intid c.exception_depth))
      × ((eret cpu g'' c'').1.exception_depth ≡ c.exception_depth)
      × ((eret cpu g'' c'').1.running_priority ≡ c.running_priority)
      × ((eret cpu g'' c'').1.irq_delivery_threshold ≡ c.irq_delivery_threshold)
      × ((eret cpu g'' c'').1.pc ≡ c.pc)
      × ((eret cpu g'' c'').1.sp ≡ c.sp)
      × ((eret cpu g'' c'').1.sysregs.pstate ≡ stepped c.sysregs)
unfolding IsCurrent IsPreserved Returnable run_at
try_take_irq-eret g g' g'' cpu c c' c'' k current h kept =
    let e = preserved-Returnable c c' c'' (taken-Returnable g g' cpu c c' h) kept in
    let left = eret-frame cpu g'' c c'' e in
    (
      ap (λ x. x.0) left ∙ ap (eoi g'' cpu) (kept.4),
      ap (λ x. x.1.exception_depth) left,
      ap (λ x. x.1.running_priority) left,
      ap (λ x. x.1.irq_delivery_threshold) left
          ∙ ap (λ p. min (p % 256) c.running_priority) (framed_pmr c'' ∙ e.4)
          ∙ sym current,
      ap (λ x. x.1.pc) left ∙ return_registers-pc c c'' k e,
      ap (λ x. x.1.sp) left ∙ return_registers-sp c c'' k e,
      ap (λ x. x.1.sysregs.pstate) left ∙ return_registers-pstate c c'' k e,
    )
