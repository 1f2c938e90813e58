-- ===== src/Timer.antt =====
-- src/generic_timer.cpp and include/aarchvm/generic_timer.hpp: the timer. A reading of the host's
-- clock in nanoseconds enters as a number, `now`. The observer of a change of state, the traces and the
-- snapshot streams are left out.
pub mod Channel
pub mod Registers
pub mod Deadline
pub mod All
pub mod Lines
pub mod Tests
use aarchvm.Base.{
  ℕ, zero, suc, ◌+◌, ◌-◌, ◌*◌, ◌/◌, ◌%◌, ◌^◌, min, max, Bool, true, false, not, ◌&&◌, ◌||◌, ltb,
  leb, ◌==◌, if◌then◌else◌, bit, bit_or, u64_mod, update,
}
use aarchvm.Timer.Channel.{
  TimerChannel, fresh_channel, update_channel_irq, steps_until_channel_irq, steps_needed,
}

pub data ClockMode : Type 0 where
  guest_step host_monotonic : ClockMode

pub record CpuState : Type 0 where
  pub cntv : TimerChannel
  pub cntp : TimerChannel

pub record GenericTimer : Type 0 where
  pub cpu_count : ℕ
  pub cpu_states : ℕ → CpuState
  pub counter : ℕ
  pub step_anchor : ℕ
  pub cycles_per_step : ℕ
  pub clock_mode : ClockMode
  pub host_anchor_ns : ℕ
  pub compare : ℕ
  pub enabled : Bool
  pub mmio_irq_pending : Bool
  pub fired : Bool

abbrev pub fresh_timer : GenericTimer
fresh_timer = record {
  cpu_count = 1;
  cpu_states = λ i. record { cntv = fresh_channel; cntp = fresh_channel };
  counter = 0;
  step_anchor = 0;
  cycles_per_step = 1;
  clock_mode = guest_step;
  host_anchor_ns = 0;
  compare = 0;
  enabled = false;
  mmio_irq_pending = false;
  fired = false;
}

abbrev pub uses_host_clock : GenericTimer → Bool
uses_host_clock t = elim t.clock_mode [ guest_step ↦ false | host_monotonic ↦ true ]

-- The vector's new elements are those of a new timer.
unfoldable pub set_cpu_count : ℕ → GenericTimer → GenericTimer
set_cpu_count n t = record t {
  cpu_count = max 1 n;
  cpu_states = λ i.
      if ltb i t.cpu_count
      then t.cpu_states i
      else record { cntv = fresh_channel; cntp = fresh_channel };
}

abbrev pub slot : GenericTimer → ℕ → ℕ
slot t cpu_index = min cpu_index (t.cpu_count - 1)

abbrev pub cpu_state : GenericTimer → ℕ → CpuState
cpu_state t cpu_index = t.cpu_states (slot t cpu_index)

abbrev pub ns_to_cycles : ℕ → ℕ → ℕ
ns_to_cycles elapsed_ns freq_hz =
    elapsed_ns / 1000000000 * freq_hz + elapsed_ns % 1000000000 * freq_hz / 1000000000

unfoldable pub counter_at_steps : GenericTimer → ℕ → ℕ → ℕ
counter_at_steps t now steps =
    if uses_host_clock t
    then (t.counter + ns_to_cycles (now - t.host_anchor_ns) 100000000) % u64_mod
    else (t.counter + (steps + u64_mod - t.step_anchor) % u64_mod * t.cycles_per_step) % u64_mod

unfoldable pub update_cpu : ℕ → CpuState → CpuState
update_cpu counter s = record {
  cntv = update_channel_irq s.cntv counter;
  cntp = update_channel_irq s.cntp counter;
}

-- The one-shot comparison of the memory-mapped timer.
unfoldable pub mmio_fires : GenericTimer → Bool
mmio_fires t = t.enabled && (not t.mmio_irq_pending && (not t.fired && leb t.compare t.counter))

unfoldable pub update_irq_state : GenericTimer → GenericTimer
update_irq_state t = record t {
  mmio_irq_pending = t.mmio_irq_pending || mmio_fires t;
  fired = t.fired || mmio_fires t;
  cpu_states =
      λ i. if ltb i t.cpu_count then update_cpu t.counter (t.cpu_states i) else t.cpu_states i;
}

-- `now` and `later` are two readings of the host's clock.
unfoldable pub sync_to_steps : ℕ → ℕ → ℕ → GenericTimer → GenericTimer
sync_to_steps now later steps t = update_irq_state (record t {
  counter = counter_at_steps t now steps;
  step_anchor = steps;
  host_anchor_ns = if uses_host_clock t then later else t.host_anchor_ns;
})

unfoldable pub tick : ℕ → ℕ → GenericTimer → GenericTimer
tick now cycles t = update_irq_state (record t {
  counter = (t.counter + cycles) % u64_mod;
  host_anchor_ns = if uses_host_clock t then now else t.host_anchor_ns;
})

unfoldable pub set_clock_mode : ClockMode → ℕ → ℕ → ℕ → GenericTimer → GenericTimer
set_clock_mode mode now later steps t = update_irq_state (record t {
  counter = counter_at_steps t now steps;
  step_anchor = steps;
  host_anchor_ns = later;
  clock_mode = mode;
})

-- The search of one processor, from where no interrupt is pending.
unfoldable pub steps_until_mmio : GenericTimer → ℕ → ℕ → ℕ
steps_until_mmio t current max_steps =
    if t.enabled && not t.fired
    then (if leb t.compare current
        then 0
        else if t.cycles_per_step == 0
        then max_steps
        else min max_steps (steps_needed (t.compare - current) t.cycles_per_step))
    else max_steps

unfoldable pub any_pending : GenericTimer → ℕ → Bool
any_pending t cpu_index =
    t.mmio_irq_pending
    || ((cpu_state t cpu_index).cntv.irq_pending || (cpu_state t cpu_index).cntp.irq_pending)

unfoldable pub steps_until_cpu_irq : GenericTimer → ℕ → ℕ → ℕ → ℕ → ℕ
steps_until_cpu_irq t now cpu_index steps max_steps =
    let current = counter_at_steps t now steps in
    let s = cpu_state t cpu_index in
    let best = steps_until_mmio t current max_steps in
    let best_v = min best (steps_until_channel_irq s.cntv current t.cycles_per_step best) in
    let best_p = min best_v (steps_until_channel_irq s.cntp current t.cycles_per_step best_v) in
    if uses_host_clock t
    then max_steps
    else if max_steps == 0
    then 0
    else if any_pending t cpu_index
    then 0
    else best_p

-- The loop over the processors, `left` of them still to come.
unfoldable pub until_loop : GenericTimer → ℕ → ℕ → ℕ → ℕ → ℕ
until_loop t now steps zero best = best
until_loop t now steps (suc left) best =
    let best' = min best (steps_until_cpu_irq t now (t.cpu_count - suc left) steps best) in
    let rest = until_loop t now steps left best' in if best' == 0 then best' else rest

unfoldable pub steps_until_irq : GenericTimer → ℕ → ℕ → ℕ → ℕ
steps_until_irq t now steps max_steps =
    if uses_host_clock t then max_steps else until_loop t now steps t.cpu_count max_steps
