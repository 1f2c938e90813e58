-- ===== src/Interrupt.antt =====
-- src/cpu.cpp, include/aarchvm/cpu.hpp: how a processor takes interrupts and exceptions and leaves them,
-- over the models of the interrupt controller and the system registers. The stacks of 64 entries are
-- functions of the depth. Traces, the exclusive monitor's reset and an instruction's other effects are
-- left out.
pub mod Taken
pub mod Cycle
pub mod Tests
use aarchvm.Base.{
  ℕ, ◌+◌, ◌-◌, ◌*◌, ◌%◌, ◌^◌, min, Bool, true, false, not, ◌&&◌, ◌||◌, ltb, leb, ◌==◌,
  if◌then◌else◌, bit, u64_mod, update, bit_or, bit_and,
}
use aarchvm.Mmu.{Regs, normalize_stage1_address}
use aarchvm.Gic.{Gic}
use aarchvm.Gic.Query.{acknowledge, highest_pending, priority}
use aarchvm.Gic.Lines.{eoi}
use aarchvm.System.{SystemRegisters}
use aarchvm.System.Sanitize.{clear}
use aarchvm.System.State.{el, uses_sp_el0, with_pstate, pstate_bits}
use aarchvm.System.Exception.{
  exception_enter_irq, exception_enter_sync, illegal_exception_return, exception_return,
  software_step_active_not_pending,
}

abbrev pub exception_stack_capacity : ℕ
exception_stack_capacity = 64

pub record Processor : Type 0 where
  pub exception_depth : ℕ
  pub exception_is_irq : ℕ → Bool
  pub exception_intid : ℕ → ℕ
  pub exception_prev_prio : ℕ → ℕ
  pub exception_prio_dropped : ℕ → Bool
  pub manual_irq_depth : ℕ
  pub manual_irq_intid : ℕ → ℕ
  pub manual_irq_prev_prio : ℕ → ℕ
  pub manual_irq_prio_dropped : ℕ → Bool
  pub icc_pmr_el1 : ℕ
  pub icc_ctlr_el1 : ℕ
  pub icc_igrpen1_el1 : ℕ
  pub running_priority : ℕ
  pub irq_delivery_threshold : ℕ
  pub irq_query_epoch : ℕ
  pub irq_query_threshold : ℕ
  pub irq_query_negative_valid : Bool
  pub stepped_instruction_in_flight : Bool
  pub halted : Bool
  pub pc : ℕ
  pub sp : ℕ
  pub sysregs : SystemRegisters

abbrev pub compute_irq_threshold : Processor → ℕ
compute_irq_threshold c = min (c.icc_pmr_el1 % 256) c.running_priority

-- A running priority, with the threshold that follows from it.
unfoldable pub run_at : ℕ → Processor → Processor
run_at prio c = record c {
  running_priority = prio;
  irq_delivery_threshold = min (c.icc_pmr_el1 % 256) prio;
}

unfoldable pub write_icc_pmr_el1 : ℕ → Processor → Processor
write_icc_pmr_el1 value c = record c {
  icc_pmr_el1 = value;
  irq_delivery_threshold = min (value % 256) c.running_priority;
}

unfoldable pub should_try_irq : Gic → Processor → Bool
should_try_irq g c =
    if c.sysregs.pstate.i || c.icc_igrpen1_el1 == 0
    then false
    else not (
        c.irq_query_negative_valid
        && (c.irq_query_epoch == g.state_epoch
            && c.irq_query_threshold == c.irq_delivery_threshold))

-- A query that found nothing is remembered with the epoch and the threshold.
unfoldable pub remember : ℕ → Processor → Processor
remember epoch c = record c {
  irq_query_epoch = epoch;
  irq_query_threshold = c.irq_delivery_threshold;
  irq_query_negative_valid = true;
}

unfoldable pub save_current_sp_to_bank : Processor → Processor
save_current_sp_to_bank c =
    let s = c.sysregs in
    record c {
      sysregs = record s {
        sp_el0 = if uses_sp_el0 s.pstate then c.sp else s.sp_el0;
        sp_el1 = if uses_sp_el0 s.pstate then s.sp_el1 else c.sp;
      };
    }

unfoldable pub load_current_sp_from_bank : Processor → Processor
load_current_sp_from_bank c = record c {
  sp = if uses_sp_el0 c.sysregs.pstate then c.sysregs.sp_el0 else c.sysregs.sp_el1;
}

-- The registers that the translation of addresses reads.
abbrev pub mmu_regs : SystemRegisters → Regs
mmu_regs s = record {
  sctlr = s.sctlr_el1;
  tcr = s.tcr_el1;
  ttbr0 = s.ttbr0_el1;
  ttbr1 = s.ttbr1_el1;
  mair = s.mair_el1;
  id_mmfr0 = s.id_aa64mmfr0_el1;
  in_el0 = el s.pstate == 0;
  pan = s.pstate.pan;
}

-- The address of the handler, for an interrupt 0x80 further.
unfoldable pub vector : ℕ → SystemRegisters → SystemRegisters → ℕ
vector base before after =
    let place =
      if el before.pstate == 0 then 0x400 else if uses_sp_el0 before.pstate then 0 else 0x200 in
    normalize_stage1_address (mmu_regs after) ((after.vbar_el1 + (place + base)) % u64_mod)

-- A frame on the stack of exceptions.
unfoldable pub push_frame : Bool → ℕ → Bool → Processor → Processor
push_frame is_irq intid dropped c = record c {
  exception_is_irq = update c.exception_is_irq c.exception_depth is_irq;
  exception_intid = update c.exception_intid c.exception_depth intid;
  exception_prev_prio = update c.exception_prev_prio c.exception_depth c.running_priority;
  exception_prio_dropped = update c.exception_prio_dropped c.exception_depth dropped;
  exception_depth = c.exception_depth + 1;
}

-- The registers at the handler of an interrupt; single stepping ends if an instruction is due.
unfoldable pub enter_irq : Processor → Processor
enter_irq c =
    let s = c.sysregs in
    let armed =
      with_pstate s
        (record s.pstate { ss = not (software_step_active_not_pending s) && s.pstate.ss }) in
    let entered = exception_enter_irq c.pc (pstate_bits s.pstate) armed in
    record (load_current_sp_from_bank (record c { sysregs = entered })) {
      pc = vector 0x80 s entered;
    }

unfoldable pub take_frame : ℕ → ℕ → Processor → Processor
take_frame intid new_prio c =
    enter_irq (run_at new_prio (push_frame true intid false (save_current_sp_to_bank c)))

-- The registers after the instruction ERET above level 0.
unfoldable pub return_registers : Processor → Processor
return_registers c =
    let saved = save_current_sp_to_bank c in
    let returned = exception_return (illegal_exception_return saved.sysregs) saved.sysregs in
    load_current_sp_from_bank (record saved { pc = returned.0; sysregs = returned.1 })

module _ (cpu_index : ℕ) where
  -- `Cpu::try_take_irq`: whether it was taken, the controller and the processor.
  unfoldable pub taken : Gic → Processor → Bool × ℕ × Gic → Bool × Gic × Processor
  taken g c (found, intid, g') =
      if not found
      then (false, g', remember g.state_epoch c)
      else if leb exception_stack_capacity c.exception_depth
      then (false, g', record c { irq_query_negative_valid = false; halted = true })
      else (
        true,
        g',
        take_frame intid (priority g' cpu_index intid)
            (record c { irq_query_negative_valid = false }),
      )

  unfoldable pub try_take_irq : Gic → Processor → Bool × Gic × Processor
  try_take_irq g c = taken g c (acknowledge g cpu_index (c.irq_delivery_threshold % 256))

  -- The end of the interrupt that the return leaves, unless its handler ended it, and its frame.
  unfoldable pub leave_frame : Gic → Processor → Gic × Processor
  leave_frame g c =
      let index = c.exception_depth - 1 in
      let popped = record c { exception_depth = index } in
      if c.exception_depth == 0
      then (g, c)
      else if c.exception_is_irq index && not (c.exception_prio_dropped index)
      then (eoi g cpu_index (c.exception_intid index), run_at (c.exception_prev_prio index) popped)
      else (g, popped)

  unfoldable pub eret : Gic → Processor → Gic × Processor
  eret g c = leave_frame g (return_registers c)

  -- ICC_IAR1_EL1: the interrupt of the frame, or one that the guest acknowledges by itself.
  unfoldable pub acknowledged : Gic → Processor → Bool × ℕ × Gic → ℕ × Gic × Processor
  acknowledged g c (found, intid, g') =
      let pushed = record c {
        irq_query_negative_valid = false;
        manual_irq_intid = update c.manual_irq_intid c.manual_irq_depth intid;
        manual_irq_prev_prio = update c.manual_irq_prev_prio c.manual_irq_depth c.running_priority;
        manual_irq_prio_dropped = update c.manual_irq_prio_dropped c.manual_irq_depth false;
        manual_irq_depth = c.manual_irq_depth + 1;
      } in
      if found
      then (intid, g', run_at (priority g' cpu_index intid) pushed)
      else (1023, g', remember g'.state_epoch c)

  abbrev pub in_irq_frame : Processor → Bool
  in_irq_frame c = not (c.exception_depth == 0) && c.exception_is_irq (c.exception_depth - 1)

  unfoldable pub read_icc_iar1_el1 : Gic → Processor → ℕ × Gic × Processor
  read_icc_iar1_el1 g c =
      if in_irq_frame c
      then (c.exception_intid (c.exception_depth - 1), g, c)
      else if c.icc_igrpen1_el1 == 0 || leb exception_stack_capacity c.manual_irq_depth
      then (1023, g, c)
      else acknowledged g c (acknowledge g cpu_index (c.irq_delivery_threshold % 256))

  unfoldable pub read_icc_hppir1_el1 : Gic → Processor → ℕ
  read_icc_hppir1_el1 g c =
      let (found, intid) = highest_pending g cpu_index (c.irq_delivery_threshold % 256) in
      if c.icc_igrpen1_el1 == 0 then 1023 else if found then intid else 1023

  -- ICC_EOIR1_EL1: the priority drops, and the interrupt ends unless the guest ends it apart.
  unfoldable pub drop_frame : Gic → ℕ → Processor → Gic × Processor
  drop_frame g intid c =
      let index = c.exception_depth - 1 in
      let dropped =
        run_at (c.exception_prev_prio index)
          (record c { exception_prio_dropped = update c.exception_prio_dropped index true }) in
      (if bit c.icc_ctlr_el1 1 then g else eoi g cpu_index intid, dropped)

  unfoldable pub drop_manual : Gic → ℕ → Processor → Gic × Processor
  drop_manual g intid c =
      let index = c.manual_irq_depth - 1 in
      let dropped =
        run_at (c.manual_irq_prev_prio index)
          (record c { manual_irq_prio_dropped = update c.manual_irq_prio_dropped index true }) in
      if bit c.icc_ctlr_el1 1
      then (g, dropped)
      else (eoi g cpu_index intid, record dropped { manual_irq_depth = index })

  unfoldable pub icc_priority_drop : Gic → ℕ → Processor → Gic × Processor
  icc_priority_drop g intid c =
      if in_irq_frame c && c.exception_intid (c.exception_depth - 1) == intid
      then drop_frame g intid c
      else if c.manual_irq_depth == 0
      then (g, c)
      else if c.manual_irq_intid (c.manual_irq_depth - 1) == intid
      then drop_manual g intid c
      else (g, c)

  -- ICC_DIR_EL1.
  unfoldable pub icc_deactivate : Gic → ℕ → Processor → Gic × Processor
  icc_deactivate g intid c =
      let index = c.manual_irq_depth - 1 in
      let ended = eoi g cpu_index intid in
      if c.manual_irq_depth == 0
      then (ended, c)
      else if c.manual_irq_intid index == intid && c.manual_irq_prio_dropped index
      then (ended, record c { manual_irq_depth = index })
      else (ended, c)

-- `Cpu::enter_sync_exception`.
unfoldable pub captured_pstate_for_sync_exception : ℕ → Processor → ℕ
captured_pstate_for_sync_exception ec c =
    let saved = pstate_bits c.sysregs.pstate in
    if not c.stepped_instruction_in_flight
    then saved
    else if ec == 0x15
    then clear saved (2 ^ 21)
    else bit_or saved (2 ^ 21)

unfoldable pub enter_sync : ℕ → ℕ → ℕ → Bool → ℕ → Processor → Processor
enter_sync fault_pc ec iss far_valid far c =
    let return_pc = if ec == 0x15 then (fault_pc + 4) % u64_mod else fault_pc in
    let s = c.sysregs in
    let ends = c.stepped_instruction_in_flight || software_step_active_not_pending s in
    let armed = with_pstate s (record s.pstate { ss = not ends && s.pstate.ss }) in
    let saved =
      save_current_sp_to_bank
        (record c { stepped_instruction_in_flight = false; sysregs = armed }) in
    let framed = push_frame false 0 true saved in
    let entered =
      exception_enter_sync return_pc (captured_pstate_for_sync_exception ec c) ec iss far_valid far
        framed.sysregs in
    record (load_current_sp_from_bank (record framed { sysregs = entered })) {
      pc = vector 0 s entered;
    }

unfoldable pub enter_sync_exception : ℕ → ℕ → ℕ → Bool → ℕ → Processor → Processor
enter_sync_exception fault_pc ec iss far_valid far c =
    if leb exception_stack_capacity c.exception_depth
    then record c { halted = true }
    else enter_sync fault_pc ec iss far_valid far c
