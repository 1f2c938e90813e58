-- ===== src/Timer/Lines.antt =====
-- src/generic_timer.cpp: the interrupt lines of the channels, and the timer value registers.
use aarchvm.Base.{
  ℕ, ◌+◌, ◌-◌, ◌*◌, ◌%◌, ◌^◌, ◌<◌, ◌≡◌, refl, Bool, true, false, not, ◌&&◌, ◌==◌, if◌then◌else◌,
  u64_mod, arith, List, [], ◌∷◌,
}
use aarchvm.Timer.Channel.{
  TimerChannel, due, update_channel_irq, read_tval, write_tval, sign_extend_32,
}
use aarchvm.Timer.{
  ClockMode, GenericTimer, uses_host_clock, cpu_state, counter_at_steps, sync_to_steps,
  update_irq_state, update_cpu, tick, set_clock_mode,
}
use aarchvm.Timer.Registers.{
  write, write_compare, write_control, set_cntv, write_cntv_ctl_el0, write_cntv_cval_el0,
  write_cntv_tval_el0, write_cntp_ctl_el0, write_cntp_cval_el0, write_cntp_tval_el0,
  read_cntv_tval_el0,
}

-- The calls that move the timer on or program it; each that reads the host's clock has its readings.
pub data Call : Type 0 where
  advance : ℕ → ℕ → ℕ → Call
  count : ℕ → ℕ → Call
  use_clock : ClockMode → ℕ → ℕ → ℕ → Call
  store : ℕ → ℕ → ℕ → Call
  control_virtual compare_virtual value_virtual : ℕ → ℕ → ℕ → ℕ → ℕ → Call
  control_physical compare_physical value_physical : ℕ → ℕ → ℕ → ℕ → ℕ → Call

unfoldable pub apply : Call → GenericTimer → GenericTimer
apply (advance now later steps) t = sync_to_steps now later steps t
apply (count now cycles) t = tick now cycles t
apply (use_clock mode now later steps) t = set_clock_mode mode now later steps t
apply (store offset value size) t = write t offset value size
apply (control_virtual n l c s v) t = write_cntv_ctl_el0 n l c s v t
apply (compare_virtual n l c s v) t = write_cntv_cval_el0 n l c s v t
apply (value_virtual n l c s v) t = write_cntv_tval_el0 n l c s v t
apply (control_physical n l c s v) t = write_cntp_ctl_el0 n l c s v t
apply (compare_physical n l c s v) t = write_cntp_cval_el0 n l c s v t
apply (value_physical n l c s v) t = write_cntp_tval_el0 n l c s v t

unfoldable pub run : List Call → GenericTimer → GenericTimer
run [] t = t
run (c ∷ cs) t = run cs (apply c t)

-- Both lines of every processor show their channel's condition at the counter.
unfoldable pub Settled : GenericTimer → Type 0
Settled t =
    (i : ℕ)
    → i < t.cpu_count
    → ((t.cpu_states i).cntv.irq_pending ≡ due (t.cpu_states i).cntv t.counter)
      × ((t.cpu_states i).cntp.irq_pending ≡ due (t.cpu_states i).cntp t.counter)

update_irq_state-Settled : (t : GenericTimer) → Settled (update_irq_state t)
unfolding Settled update_irq_state update_cpu update_channel_irq due
update_irq_state-Settled t i h = ground arith

if-Settled : (b : Bool) (t u : GenericTimer) → Settled t → Settled u → Settled (if b then t else u)
if-Settled true t u p q = p
if-Settled false t u p q = q

write_compare-Settled : (t : GenericTimer) (value : ℕ) → Settled (write_compare t value)
unfolding write_compare
write_compare-Settled t value = update_irq_state-Settled _

write_control-Settled : (t : GenericTimer) (value : ℕ) → Settled (write_control t value)
unfolding write_control
write_control-Settled t value = update_irq_state-Settled _

write-Settled :
    (t : GenericTimer) (offset value size : ℕ) → Settled t → Settled (write t offset value size)
unfolding write
write-Settled t offset value size h =
    let control = if offset == 0x10 then write_control t value else t in
    let register = if offset == 0x08 then write_compare t value else control in
    if-Settled (not (size == 8) && not (size == 4)) t register h (
      if-Settled (offset == 0x08) (write_compare t value) control (write_compare-Settled t value)
        (if-Settled (offset == 0x10) (write_control t value) t (write_control-Settled t value) h))

apply-Settled : (c : Call) (t : GenericTimer) → Settled t → Settled (apply c t)
unfolding apply sync_to_steps tick set_clock_mode write_cntv_ctl_el0 write_cntv_cval_el0
    write_cntv_tval_el0 write_cntp_ctl_el0 write_cntp_cval_el0 write_cntp_tval_el0
apply-Settled (advance now later steps) t h = update_irq_state-Settled _
apply-Settled (count now cycles) t h = update_irq_state-Settled _
apply-Settled (use_clock mode now later steps) t h = update_irq_state-Settled _
apply-Settled (store offset value size) t h = write-Settled t offset value size h
apply-Settled (control_virtual n l c s v) t h = update_irq_state-Settled _
apply-Settled (compare_virtual n l c s v) t h = update_irq_state-Settled _
apply-Settled (value_virtual n l c s v) t h = update_irq_state-Settled _
apply-Settled (control_physical n l c s v) t h = update_irq_state-Settled _
apply-Settled (compare_physical n l c s v) t h = update_irq_state-Settled _
apply-Settled (value_physical n l c s v) t h = update_irq_state-Settled _

-- After any sequence of calls that move the timer on or program it, from a timer whose interrupt lines
-- show their channels' conditions (enabled, not masked, counter at or past the comparison), the lines of
-- every processor do.
pub run-Settled : (cs : List Call) (t : GenericTimer) → Settled t → Settled (run cs t)
unfolding run
run-Settled [] t h = h
run-Settled (c ∷ cs) t h = run-Settled cs (apply c t) (apply-Settled c t h)

-- The value read `d` cycles after it was written, with those cycles added back.
read_tval-write_tval :
    (c : TimerChannel) (current value d : ℕ)
    → current < 2 ^ 64
    → (read_tval (write_tval c current value) ((current + d) % u64_mod) + d) % 2 ^ 32
      ≡ value % 2 ^ 32
unfolding read_tval write_tval sign_extend_32
read_tval-write_tval c current value d h = ground arith

counter_of_write :
    (t : GenericTimer) (now later cpu_index steps value k now' : ℕ)
    → uses_host_clock t ≡ false
    → steps + k < 2 ^ 64
    → counter_at_steps (write_cntv_tval_el0 now later cpu_index steps value t) now' (steps + k)
      ≡ (counter_at_steps t now steps + k * t.cycles_per_step) % u64_mod
unfolding counter_at_steps write_cntv_tval_el0 sync_to_steps update_irq_state set_cntv
counter_of_write t now later cpu_index steps value k now' h lt =
    let passed : (steps + k + u64_mod - steps) % u64_mod ≡ k = omega arith in rw (h, passed) refl

counter_fits : (t : GenericTimer) (now steps : ℕ) → counter_at_steps t now steps < 2 ^ 64
unfolding counter_at_steps
counter_fits t now steps = ground arith

cval_of_write :
    (t : GenericTimer) (now later cpu_index steps value : ℕ)
    → 0 < t.cpu_count
    → (cpu_state (write_cntv_tval_el0 now later cpu_index steps value t) cpu_index).cntv.cval
      ≡ (write_tval (cpu_state t cpu_index).cntv (counter_at_steps t now steps) value).cval
unfolding write_cntv_tval_el0 sync_to_steps update_irq_state update_cpu update_channel_irq set_cntv
    write_tval
cval_of_write t now later cpu_index steps value p = ground arith

-- On the guest's clock, a value written to the virtual timer value register is read back, in its low 32
-- bits, and `k` steps later less the cycles of those steps, modulo 2^32, as long as the step number does
-- not wrap.
pub read-write_tval :
    (t : GenericTimer) (now later cpu_index steps value k now' : ℕ)
    → uses_host_clock t ≡ false
    → 0 < t.cpu_count
    → steps + k < 2 ^ 64
    → (read_cntv_tval_el0
            (write_cntv_tval_el0 now later cpu_index steps value t)
            now'
            cpu_index
            (steps + k)
          + k * t.cycles_per_step)
        % 2 ^ 32
      ≡ value % 2 ^ 32
unfolding read_cntv_tval_el0 read_tval
read-write_tval t now later cpu_index steps value k now' h p lt =
    rw
      (
        counter_of_write t now later cpu_index steps value k now' h lt,
        cval_of_write t now later cpu_index steps value p,
      )
      (read_tval-write_tval (cpu_state t cpu_index).cntv (counter_at_steps t now steps) value
        (k * t.cycles_per_step) (counter_fits t now steps))
