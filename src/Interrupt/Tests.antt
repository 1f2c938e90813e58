-- ===== src/Interrupt/Tests.antt =====
-- The theorems about how src/cpu.cpp takes interrupts at a concrete processor, and runs of its functions.
use aarchvm.Base.{◌<◌, ◌≡◌, refl, Bool, true, false, ◌||◌, ◌==◌, if◌then◌else◌, inr}
use aarchvm.Gic.{Gic, blank}
use aarchvm.Gic.Query.{acknowledge, highest_pending, best_pending, scan, consider}
use aarchvm.Gic.Lines.{eoi}
use aarchvm.Gic.Best.{IsLeast}
use aarchvm.System.{reset_values}
use aarchvm.System.Return.{IsMode, IsConsistent, stepped}
use aarchvm.Interrupt.{
  Processor, try_take_irq, taken, take_frame, eret, should_try_irq, run_at, enter_irq, push_frame,
  save_current_sp_to_bank, load_current_sp_from_bank,
}
use aarchvm.Interrupt.Taken.{IsCurrent, try_take_irq-IsLeast}
use aarchvm.Interrupt.Cycle.{IsPreserved, try_take_irq-eret}

-- Two shared interrupts, 37 and 40, wait; the second is the more urgent.
abbrev waiting : Gic
waiting = record blank {
  spi_pending = λ i. i == 8 || i == 5;
  spi_enabled = λ i. true;
  spi_priorities = λ i. if i == 8 then 0x10 else 0xA0;
}

abbrev guest : Processor
guest = record {
  exception_depth = 0;
  exception_is_irq = λ i. false;
  exception_intid = λ i. 0;
  exception_prev_prio = λ i. 0;
  exception_prio_dropped = λ i. false;
  manual_irq_depth = 0;
  manual_irq_intid = λ i. 0;
  manual_irq_prev_prio = λ i. 0;
  manual_irq_prio_dropped = λ i. false;
  icc_pmr_el1 = 0xF0;
  icc_ctlr_el1 = 0;
  icc_igrpen1_el1 = 1;
  running_priority = 0x100;
  irq_delivery_threshold = 0xF0;
  irq_query_epoch = 0;
  irq_query_threshold = 0;
  irq_query_negative_valid = false;
  stepped_instruction_in_flight = false;
  halted = false;
  pc = 0x80010;
  sp = 0x7FF0;
  sysregs = record reset_values { vbar_el1 = 0x81000 };
}

guest-IsConsistent : IsConsistent guest.sysregs
unfolding IsConsistent IsMode
guest-IsConsistent = (inr (inr refl), refl)

guest-IsCurrent : IsCurrent guest
unfolding IsCurrent
guest-IsCurrent = refl

ready_test : should_try_irq waiting guest ≡ true
unfolding should_try_irq
ready_test = refl

abbrev after : Bool × Gic × Processor
after = try_take_irq 0 waiting guest

took : after ≡ (true, after.1, after.2)
unfolding try_take_irq taken acknowledge highest_pending best_pending scan consider
took = refl

number_test : after.2.exception_intid 0 ≡ 40
unfolding try_take_irq taken acknowledge highest_pending best_pending scan consider take_frame
    enter_irq run_at push_frame save_current_sp_to_bank load_current_sp_from_bank
number_test = refl

try_take_irq-IsLeast_example :
    IsLeast waiting 0 0xF0 (after.2.exception_intid 0)
    × (after.2.running_priority < 0x100)
    × (after.2.running_priority < 0xF0)
    × (after.2.exception_depth ≡ 1)
    × IsCurrent (after.2)
try_take_irq-IsLeast_example =
    try_take_irq-IsLeast waiting (after.1) 0 guest (after.2) guest-IsCurrent took

-- What a handler leaves that has written other registers, and made every shared interrupt urgent.
abbrev handled : Processor
handled = record (after.2) {
  pc = 0x82040;
  irq_query_epoch = 7;
  sysregs = record (after.2.sysregs) { far_el1 = 0x1234; vbar_el1 = 0x90000 };
}

abbrev rearranged : Gic
rearranged = record (after.1) { spi_priorities = λ i. 0x20 }

handled-IsPreserved : IsPreserved 0 (after.2) handled
unfolding IsPreserved
handled-IsPreserved = (refl, refl, refl, refl, refl, refl, refl, refl, refl, refl, refl, refl, refl)

try_take_irq-eret_example :
    ((eret 0 rearranged handled).0 ≡ eoi rearranged 0 (after.2.exception_intid 0))
    × ((eret 0 rearranged handled).1.exception_depth ≡ 0)
    × ((eret 0 rearranged handled).1.running_priority ≡ 0x100)
    × ((eret 0 rearranged handled).1.irq_delivery_threshold ≡ 0xF0)
    × ((eret 0 rearranged handled).1.pc ≡ 0x80010)
    × ((eret 0 rearranged handled).1.sp ≡ 0x7FF0)
    × ((eret 0 rearranged handled).1.sysregs.pstate ≡ stepped guest.sysregs)
try_take_irq-eret_example =
    try_take_irq-eret waiting (after.1) rearranged 0 guest (after.2) handled guest-IsConsistent
      guest-IsCurrent took handled-IsPreserved
