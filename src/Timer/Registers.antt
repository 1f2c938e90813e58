-- ===== src/Timer/Registers.antt =====
-- src/generic_timer.cpp: the memory-mapped registers and the system registers of the timer.
use aarchvm.Base.{ℕ, Bool, false, not, ◌&&◌, ◌==◌, if◌then◌else◌, bit, bit_or, update}
use aarchvm.Timer.Channel.{TimerChannel, read_ctl, read_tval, write_ctl, write_cval, write_tval}
use aarchvm.Timer.{GenericTimer, cpu_state, slot, counter_at_steps, update_irq_state, sync_to_steps}

unfoldable pub read : GenericTimer → ℕ → ℕ → ℕ → ℕ
read t now offset size =
    if not (size == 8) && not (size == 4)
    then 0
    else if offset == 0x00
    then counter_at_steps t now t.step_anchor
    else if offset == 0x08
    then t.compare
    else if offset == 0x10
    then bit_or (if t.enabled then 1 else 0) (if t.mmio_irq_pending then 2 else 0)
    else 0

unfoldable pub write_compare : GenericTimer → ℕ → GenericTimer
write_compare t value =
    update_irq_state (record t { compare = value; mmio_irq_pending = false; fired = false })

unfoldable pub write_control : GenericTimer → ℕ → GenericTimer
write_control t value = update_irq_state (record t {
  enabled = bit value 0;
  fired = bit value 0 && t.fired;
  mmio_irq_pending = bit value 0 && (not (bit value 1) && t.mmio_irq_pending);
})

unfoldable pub write : GenericTimer → ℕ → ℕ → ℕ → GenericTimer
write t offset value size =
    if not (size == 8) && not (size == 4)
    then t
    else if offset == 0x08
    then write_compare t value
    else if offset == 0x10
    then write_control t value
    else t

-- One channel of one processor replaced.
unfoldable pub set_cntv : GenericTimer → ℕ → TimerChannel → GenericTimer
set_cntv t cpu_index c = record t {
  cpu_states = update t.cpu_states (slot t cpu_index) (record (cpu_state t cpu_index) { cntv = c });
}

unfoldable pub set_cntp : GenericTimer → ℕ → TimerChannel → GenericTimer
set_cntp t cpu_index c = record t {
  cpu_states = update t.cpu_states (slot t cpu_index) (record (cpu_state t cpu_index) { cntp = c });
}

abbrev pub irq_pending_virtual : GenericTimer → ℕ → Bool
irq_pending_virtual t cpu_index = (cpu_state t cpu_index).cntv.irq_pending

abbrev pub irq_pending_physical : GenericTimer → ℕ → Bool
irq_pending_physical t cpu_index = (cpu_state t cpu_index).cntp.irq_pending

unfoldable pub clear_irq : GenericTimer → GenericTimer
clear_irq t = record t { mmio_irq_pending = false }

unfoldable pub clear_virtual_irq : ℕ → GenericTimer → GenericTimer
clear_virtual_irq cpu_index t =
    set_cntv t cpu_index (record (cpu_state t cpu_index).cntv { irq_pending = false })

unfoldable pub clear_physical_irq : ℕ → GenericTimer → GenericTimer
clear_physical_irq cpu_index t =
    set_cntp t cpu_index (record (cpu_state t cpu_index).cntp { irq_pending = false })

unfoldable pub read_cntv_ctl_el0 : GenericTimer → ℕ → ℕ → ℕ → ℕ
read_cntv_ctl_el0 t now cpu_index steps =
    read_ctl (cpu_state t cpu_index).cntv (counter_at_steps t now steps)

unfoldable pub read_cntp_ctl_el0 : GenericTimer → ℕ → ℕ → ℕ → ℕ
read_cntp_ctl_el0 t now cpu_index steps =
    read_ctl (cpu_state t cpu_index).cntp (counter_at_steps t now steps)

abbrev pub read_cntv_cval_el0 : GenericTimer → ℕ → ℕ
read_cntv_cval_el0 t cpu_index = (cpu_state t cpu_index).cntv.cval

abbrev pub read_cntp_cval_el0 : GenericTimer → ℕ → ℕ
read_cntp_cval_el0 t cpu_index = (cpu_state t cpu_index).cntp.cval

unfoldable pub read_cntv_tval_el0 : GenericTimer → ℕ → ℕ → ℕ → ℕ
read_cntv_tval_el0 t now cpu_index steps =
    read_tval (cpu_state t cpu_index).cntv (counter_at_steps t now steps)

unfoldable pub read_cntp_tval_el0 : GenericTimer → ℕ → ℕ → ℕ → ℕ
read_cntp_tval_el0 t now cpu_index steps =
    read_tval (cpu_state t cpu_index).cntp (counter_at_steps t now steps)

unfoldable pub write_cntv_ctl_el0 : ℕ → ℕ → ℕ → ℕ → ℕ → GenericTimer → GenericTimer
write_cntv_ctl_el0 now later cpu_index steps value t =
    let s = sync_to_steps now later steps t in
    update_irq_state (set_cntv s cpu_index (write_ctl (cpu_state s cpu_index).cntv value))

unfoldable pub write_cntv_cval_el0 : ℕ → ℕ → ℕ → ℕ → ℕ → GenericTimer → GenericTimer
write_cntv_cval_el0 now later cpu_index steps value t =
    let s = sync_to_steps now later steps t in
    update_irq_state (set_cntv s cpu_index (write_cval (cpu_state s cpu_index).cntv value))

unfoldable pub write_cntv_tval_el0 : ℕ → ℕ → ℕ → ℕ → ℕ → GenericTimer → GenericTimer
write_cntv_tval_el0 now later cpu_index steps value t =
    let s = sync_to_steps now later steps t in
    update_irq_state
      (set_cntv s cpu_index (write_tval (cpu_state s cpu_index).cntv s.counter value))

unfoldable pub write_cntp_ctl_el0 : ℕ → ℕ → ℕ → ℕ → ℕ → GenericTimer → GenericTimer
write_cntp_ctl_el0 now later cpu_index steps value t =
    let s = sync_to_steps now later steps t in
    update_irq_state (set_cntp s cpu_index (write_ctl (cpu_state s cpu_index).cntp value))

unfoldable pub write_cntp_cval_el0 : ℕ → ℕ → ℕ → ℕ → ℕ → GenericTimer → GenericTimer
write_cntp_cval_el0 now later cpu_index steps value t =
    let s = sync_to_steps now later steps t in
    update_irq_state (set_cntp s cpu_index (write_cval (cpu_state s cpu_index).cntp value))

unfoldable pub write_cntp_tval_el0 : ℕ → ℕ → ℕ → ℕ → ℕ → GenericTimer → GenericTimer
write_cntp_tval_el0 now later cpu_index steps value t =
    let s = sync_to_steps now later steps t in
    update_irq_state
      (set_cntp s cpu_index (write_tval (cpu_state s cpu_index).cntp s.counter value))
